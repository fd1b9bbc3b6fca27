-- ===== src/PaperTrading/Portfolio/Defs.antt =====
-- The state and the methods of `Portfolio` (app/paper_trading/portfolio.py). A dict is an association
-- list in insertion order.
use mercury_trading.Base.{
  ℕ, Option, none, some, List, [], ◌∷◌, String, str_eq, if◌then◌else◌, map, keep,
}
use mercury_trading.PaperTrading.Number.{Number, nought, min_of}
use mercury_trading.PaperTrading.Events.{FillEvent, is_buy}

module _ {V : Type 0} where
  -- `d[key] = value`
  unfoldable pub insert : String → V → List (String × V) → List (String × V)
  insert key value [] = (key, value) ∷ []
  insert key value ((k, old) ∷ d) =
      if str_eq k key then (k, value) ∷ d else (k, old) ∷ insert key value d

  -- `d.get(key)`
  unfoldable pub lookup : String → List (String × V) → Option V
  lookup key [] = none
  lookup key ((k, value) ∷ d) = if str_eq k key then some value else lookup key d

pub record Position (F : Type 0) : Type 0 where
  pub quantity : F
  pub average_entry_price : F

pub record Portfolio (F : Type 0) : Type 0 where
  pub initial_cash : F
  pub cash : F
  pub positions : List (String × Position F)
  pub realized_pnl : F
  pub transaction_costs : F
  pub last_prices : List (String × F)

-- A row of `PortfolioEvent.positions`.
pub record PositionRow (F : Type 0) : Type 0 where
  pub quantity : F
  pub average_entry_price : F
  pub market_price : F
  pub market_value : F

pub record PortfolioEvent (F : Type 0) : Type 0 where
  pub timestamp : ℕ
  pub cash : F
  pub positions : List (String × PositionRow F)
  pub realized_pnl : F
  pub unrealized_pnl : F
  pub equity : F
  pub exposure : F
  pub transaction_costs : F

module _ {F : Type 0} ⦃num : Number F⦄ (upper : String → String) where
  open num use {add, sub, mul, div, absolute, round8, epsilon, le, lt, eq}

  abbrev pub no_position : Position F
  no_position = record { quantity = nought; average_entry_price = nought }

  unfoldable pub new_portfolio : F → Portfolio F
  new_portfolio initial_cash = record {
    initial_cash = initial_cash;
    cash = initial_cash;
    positions = [];
    realized_pnl = nought;
    transaction_costs = nought;
    last_prices = [];
  }

  abbrev pub or_position : Option (Position F) → Position F
  or_position none = no_position
  or_position (some p) = p

  -- The position of a symbol, or the empty one.
  unfoldable pub position_of : Portfolio F → String → Position F
  position_of p symbol = or_position (lookup symbol p.positions)

  unfoldable pub position_quantity : Portfolio F → String → F
  unfolding position_of
  position_quantity p symbol = (position_of p (upper symbol)).quantity

  -- The bought position; Python's `if position.quantity` is a test against 0.
  unfoldable pub buy_into : FillEvent F → Position F → Position F
  buy_into fill position =
      let new_cost = add (mul position.quantity position.average_entry_price) fill.gross_notional in
      let quantity = add position.quantity fill.quantity in
      record {
        quantity = quantity;
        average_entry_price = if eq quantity nought then nought else div new_cost quantity;
      }

  unfoldable pub sold_quantity : FillEvent F → Position F → F
  sold_quantity fill position = min_of fill.quantity position.quantity

  unfoldable pub sell_from : FillEvent F → Position F → Position F
  sell_from fill position =
      let quantity = sub position.quantity (sold_quantity fill position) in
      if le quantity epsilon then no_position else record position { quantity = quantity }

  unfoldable pub apply_buy : FillEvent F → String → Position F → Portfolio F → Portfolio F
  apply_buy fill symbol position p = record p {
    positions = insert symbol (buy_into fill position) p.positions;
    cash = sub p.cash (add fill.gross_notional fill.fees);
  }

  unfoldable pub apply_sell : FillEvent F → String → Position F → Portfolio F → Portfolio F
  apply_sell fill symbol position p = record p {
    positions = insert symbol (sell_from fill position) p.positions;
    cash = add p.cash (sub fill.gross_notional fill.fees);
    realized_pnl = add p.realized_pnl (
        sub (mul (sub fill.price position.average_entry_price) (sold_quantity fill position))
          fill.fees);
  }

  unfoldable pub apply_fill : FillEvent F → Portfolio F → Portfolio F
  apply_fill fill p =
      let symbol = upper fill.symbol in
      let position = position_of p symbol in
      let noted = record p {
        transaction_costs = add p.transaction_costs fill.fees;
        last_prices = insert symbol fill.price p.last_prices;
      } in
      if is_buy fill.side
      then apply_buy fill symbol position noted
      else apply_sell fill symbol position noted

  unfoldable pub mark_price : String → F → Portfolio F → Portfolio F
  unfolding insert
  mark_price symbol price p = record p { last_prices = insert (upper symbol) price p.last_prices }

  abbrev or_price : Option F → F → F
  or_price none d = d
  or_price (some x) d = x

  -- `self._last_prices.get(symbol, position.average_entry_price)`
  unfoldable pub price_of : Portfolio F → String → Position F → F
  unfolding lookup
  price_of p symbol position = or_price (lookup symbol p.last_prices) position.average_entry_price

  -- `sum(…)` over the positions, from 0 and from the left.
  abbrev sum_from : (String → Position F → F) → F → List (String × Position F) → F
  sum_from f acc [] = acc
  sum_from f acc ((s, q) ∷ d) = sum_from f (add acc (f s q)) d

  unfoldable pub equity : Portfolio F → F
  unfolding price_of
  equity p = add p.cash (sum_from (λ s q. mul q.quantity (price_of p s q)) nought p.positions)

  unfoldable pub exposure : Portfolio F → F
  unfolding price_of
  exposure p = sum_from (λ s q. absolute (mul q.quantity (price_of p s q))) nought p.positions

  unfoldable pub unrealized_pnl : Portfolio F → F
  unfolding price_of
  unrealized_pnl p =
      sum_from (λ s q. mul (sub (price_of p s q) q.average_entry_price) q.quantity) nought
        p.positions

  unfoldable pub row_of : Portfolio F → String → Position F → PositionRow F
  unfolding price_of
  row_of p s q = record {
    quantity = round8 q.quantity;
    average_entry_price = round8 q.average_entry_price;
    market_price = round8 (price_of p s q);
    market_value = round8 (mul q.quantity (price_of p s q));
  }

  unfoldable pub snapshot : Portfolio F → ℕ → PortfolioEvent F
  unfolding row_of unrealized_pnl equity exposure
  snapshot p timestamp = record {
    timestamp = timestamp;
    cash = round8 p.cash;
    positions = map (λ e. (e.0, row_of p e.0 e.1)) (keep (λ e. lt nought e.1.quantity) p.positions);
    realized_pnl = round8 p.realized_pnl;
    unrealized_pnl = round8 (unrealized_pnl p);
    equity = round8 (equity p);
    exposure = round8 (exposure p);
    transaction_costs = round8 p.transaction_costs;
  }
