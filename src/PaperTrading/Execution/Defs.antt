-- ===== src/PaperTrading/Execution/Defs.antt =====
-- Quotes and execution models (app/paper_trading/execution.py).
use mercury_trading.Base.{
  ℕ, Bool, true, false, not, ◌&&◌, ◌||◌, Option, none, some, List, [], ◌∷◌, if◌then◌else◌, String,
  Result, ok, err, ◌>>◌, raise_if,
}
use mercury_trading.Base.Int.{ℤ, pos, ltb_ℤ}
use mercury_trading.PaperTrading.Number.{Number, nought, one, min_of, max_of}
use mercury_trading.PaperTrading.Events.{
  MarketEvent, OrderEvent, OrderStatus, FillEvent, submitted, partially_filled, filled, is_buy,
}

pub data ExecutionModelName : Type 0 where
  ideal basic_slippage microstructure : ExecutionModelName

pub data SpreadModelName : Type 0 where
  observed_or_fixed fixed_bps : SpreadModelName

pub data QuoteSource : Type 0 where
  observed synthetic_fixed_bps : QuoteSource

-- The `ValueError`s.
pub data ExecutionError : Type 0 where
  negative_cost bad_participation negative_latency not_submitted not_filled : ExecutionError

pub record ExecutionConfig (F : Type 0) : Type 0 where
  pub model : ExecutionModelName
  pub spread_model : SpreadModelName
  pub fixed_spread_bps : F
  pub slippage_bps : F
  pub max_participation_rate : F
  pub impact_coefficient_bps : F
  pub latency_bars : ℤ

pub record MarketState (F : Type 0) : Type 0 where
  pub timestamp : ℕ
  pub symbol : String
  pub bid : F
  pub ask : F
  pub mid : F
  pub last_price : F
  pub volume : ℕ
  pub quote_source : QuoteSource

pub record ExecutionResult (F : Type 0) : Type 0 where
  pub order : OrderEvent F
  pub fills : List (FillEvent F)

-- `order.status in {SUBMITTED, PARTIALLY_FILLED}`
abbrev pub is_open : OrderStatus → Bool
is_open submitted = true
is_open partially_filled = true
is_open _ = false

abbrev is_observed_or_fixed : SpreadModelName → Bool
is_observed_or_fixed observed_or_fixed = true
is_observed_or_fixed fixed_bps = false

-- The price of a fill, with the reference price and the impact.
pub record Pricing (F : Type 0) : Type 0 where
  pub reference : F
  pub impact : F
  pub price : F

module _ {F : Type 0} ⦃num : Number F⦄ where
  open num use {add, sub, mul, div, absolute, square_root, round8, of_nat, epsilon, le, lt}

  -- `__post_init__`
  unfoldable pub validate_config : ExecutionConfig F → Result ExecutionError (Unit {0})
  validate_config c = do
    raise_if
        (lt c.fixed_spread_bps nought
          || lt c.slippage_bps nought
          || lt c.impact_coefficient_bps nought)
        negative_cost
    raise_if (not (lt nought c.max_participation_rate && le c.max_participation_rate one))
        bad_participation
    raise_if (ltb_ℤ c.latency_bars (pos 0)) negative_latency

  abbrev or_value : Option F → F → F
  or_value none d = d
  or_value (some x) d = x

  -- The quotes of the event, where the model reads them and they are a bid and an ask.
  abbrev observed_quote : Option F → Option F → Option (F × F)
  observed_quote (some b) (some a) = if lt nought b && le b a then some (b, a) else none
  observed_quote _ _ = none

  abbrev state_from : MarketEvent F → F → F → Option (F × F) → MarketState F
  state_from event last half (some (b, a)) = record {
    timestamp = event.timestamp;
    symbol = event.symbol;
    bid = b;
    ask = a;
    mid = div (add b a) (of_nat 2);
    last_price = last;
    volume = event.volume;
    quote_source = observed;
  }
  state_from event last half none = record {
    timestamp = event.timestamp;
    symbol = event.symbol;
    bid = sub last half;
    ask = add last half;
    mid = last;
    last_price = last;
    volume = event.volume;
    quote_source = synthetic_fixed_bps;
  }

  unfoldable pub market_state_from_event : MarketEvent F → ExecutionConfig F → MarketState F
  market_state_from_event event c =
      let last = or_value event.last_price event.open_price in
      let half = div (mul last c.fixed_spread_bps) (of_nat 20_000) in
      state_from event last half
        (if is_observed_or_fixed c.spread_model then observed_quote event.bid event.ask else none)

  unfoldable pub pricing :
      OrderEvent F → MarketState F → ExecutionConfig F → F → Bool → Bool → Pricing F
  pricing o m c fill_quantity use_quote use_impact =
      let reference = if use_quote then (if is_buy o.side then m.ask else m.bid) else m.mid in
      let slippage = div (mul reference c.slippage_bps) (of_nat 10_000) in
      let participation = div fill_quantity (max_of (of_nat m.volume) one) in
      let impact =
        if use_impact
        then mul (div (mul m.mid c.impact_coefficient_bps) (of_nat 10_000))
            (square_root participation)
        else nought in
      let cost = add slippage impact in
      record {
        reference = reference;
        impact = impact;
        price = if is_buy o.side then add reference cost else sub reference cost;
      }

  -- The order after a fill.
  unfoldable pub filled_order : OrderEvent F → F → F → OrderEvent F
  filled_order o price fill_quantity =
      let total = add o.filled_quantity fill_quantity in
      record o {
        filled_quantity = total;
        average_fill_price =
            div (add (mul o.average_fill_price o.filled_quantity) (mul price fill_quantity)) total;
        status = if le o.quantity (add total epsilon) then filled else partially_filled;
      }

  unfoldable pub fill_of : OrderEvent F → MarketState F → Pricing F → F → FillEvent F
  fill_of o m x fill_quantity = record {
    order_id = o.order_id;
    strategy_id = o.strategy_id;
    symbol = o.symbol;
    side = o.side;
    quantity = fill_quantity;
    price = round8 x.price;
    gross_notional = round8 (mul x.price fill_quantity);
    fees = nought;
    slippage_cost = round8 (mul (absolute (sub x.price m.mid)) fill_quantity);
    timestamp = m.timestamp;
    spread_cost = round8 (mul (absolute (sub x.reference m.mid)) fill_quantity);
    impact_cost = round8 (mul x.impact fill_quantity);
  }

  unfoldable pub remaining : OrderEvent F → F
  remaining o = sub o.quantity o.filled_quantity

  -- `_execute`
  unfoldable pub fill_order :
      OrderEvent F
      → MarketState F
      → ExecutionConfig F
      → F
      → Bool
      → Bool
      → Result ExecutionError (ExecutionResult F)
  unfolding remaining
  fill_order o m c fill_quantity use_quote use_impact =
      if not (is_open o.status)
      then err not_submitted
      else if le fill_quantity nought || le (max_of nought (remaining o)) nought
      then ok (record { order = o; fills = [] })
      else let x = pricing o m c fill_quantity use_quote use_impact in
        ok (record {
          order = filled_order o x.price fill_quantity;
          fills = fill_of o m x fill_quantity ∷ [];
        })

  unfoldable pub available : MarketState F → ExecutionConfig F → F
  available m c = max_of nought (mul (of_nat m.volume) c.max_participation_rate)

  -- `execute` of the model that `execution_model_for` picks.
  unfoldable pub execute_model :
      ExecutionModelName
      → OrderEvent F
      → MarketState F
      → ExecutionConfig F
      → Result ExecutionError (ExecutionResult F)
  unfolding remaining available
  execute_model ideal o m c = fill_order o m c (remaining o) false false
  execute_model basic_slippage o m c = fill_order o m c (remaining o) true false
  execute_model microstructure o m c =
      fill_order o m c (min_of (remaining o) (available m c)) true true
