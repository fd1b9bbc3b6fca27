-- ===== src/PaperTrading/Risk/Defs.antt =====
-- `RiskConfig` and `RiskEngine` (app/paper_trading/risk.py). The set of seen orders is a list of keys.
use mercury_trading.Base.{
  ℕ, Bool, ◌&&◌, Option, none, some, List, ◌∷◌, ◌==◌, any, if◌then◌else◌, String, str_eq,
}
use mercury_trading.PaperTrading.Number.{Number, nought, one}
use mercury_trading.PaperTrading.Events.{
  OrderEvent, OrderSide, OrderStatus, submitted, rejected, is_buy, same_side,
}
use mercury_trading.PaperTrading.Portfolio.Defs.{Portfolio, position_quantity, equity, exposure}

pub record RiskConfig (F : Type 0) : Type 0 where
  pub max_position_quantity : F
  pub max_order_value : F
  pub max_gross_exposure_pct : F
  pub commission_bps : F
  pub slippage_bps : F

-- The tuple that `seen_orders` holds.
pub record OrderKey (F : Type 0) : Type 0 where
  pub strategy_id : String
  pub symbol : String
  pub created_at : ℕ
  pub side : OrderSide
  pub quantity : F

pub record RiskEngine (F : Type 0) : Type 0 where
  pub config : RiskConfig F
  pub seen_orders : List (OrderKey F)

pub data Reason : Type 0 where
  invalid_quantity max_order_value_exceeded duplicate_order insufficient_position : Reason
  max_position_exceeded insufficient_cash max_exposure_exceeded : Reason

unfoldable pub message : Reason → String
message invalid_quantity = "invalid quantity"
message max_order_value_exceeded = "maximum order value exceeded"
message duplicate_order = "duplicate order"
message insufficient_position = "insufficient position"
message max_position_exceeded = "maximum position size exceeded"
message insufficient_cash = "insufficient cash"
message max_exposure_exceeded = "maximum portfolio exposure exceeded"

module _ {F : Type 0} ⦃num : Number F⦄ (upper : String → String) where
  open num use {add, sub, mul, div, absolute, round8, of_nat, epsilon, le, lt, eq}

  unfoldable pub key_of : OrderEvent F → OrderKey F
  key_of o = record {
    strategy_id = o.strategy_id;
    symbol = o.symbol;
    created_at = o.created_at;
    side = o.side;
    quantity = round8 o.quantity;
  }

  unfoldable pub same_key : OrderKey F → OrderKey F → Bool
  same_key a b =
      str_eq a.strategy_id b.strategy_id
      && str_eq a.symbol b.symbol
      && a.created_at == b.created_at
      && same_side a.side b.side
      && eq a.quantity b.quantity

  unfoldable pub estimated_cash_required : RiskConfig F → OrderEvent F → F → F
  estimated_cash_required config o market_price =
      if is_buy o.side
      then mul
          (mul (mul o.quantity market_price) (add one (div config.slippage_bps (of_nat 10_000))))
          (add one (div config.commission_bps (of_nat 10_000)))
      else nought

  unfoldable pub projected_quantity : OrderEvent F → F → F
  projected_quantity o current =
      if is_buy o.side then add current o.quantity else sub current o.quantity

  unfoldable pub projected_exposure : OrderEvent F → Portfolio F → F → F
  projected_exposure o p market_price =
      let current = position_quantity upper p o.symbol in
      add (sub (exposure upper p) (absolute (mul current market_price)))
        (absolute (mul (projected_quantity o current) market_price))

  unfoldable pub seen : RiskEngine F → OrderEvent F → Bool
  seen engine o = any (same_key (key_of o)) engine.seen_orders

  -- The `if`s of `_rejection_reason`, in their order.
  unfoldable pub rejection_reason : RiskEngine F → OrderEvent F → Portfolio F → F → Option Reason
  rejection_reason engine o p market_price =
      let config = engine.config in
      let projected = projected_quantity o (position_quantity upper p o.symbol) in
      if le o.quantity nought
      then some invalid_quantity
      else if lt config.max_order_value (mul o.quantity market_price)
      then some max_order_value_exceeded
      else if seen engine o
      then some duplicate_order
      else if lt projected (sub nought epsilon)
      then some insufficient_position
      else if lt config.max_position_quantity (absolute projected)
      then some max_position_exceeded
      else if is_buy o.side && lt p.cash (estimated_cash_required config o market_price)
      then some insufficient_cash
      else if lt (mul (equity upper p) config.max_gross_exposure_pct)
          (projected_exposure o p market_price)
      then some max_exposure_exceeded
      else none

  -- The order of an answer is built anew: nothing has been filled of it.
  abbrev answer : OrderEvent F → OrderStatus → Option String → OrderEvent F
  answer o status reason = record o {
    status = status;
    reason = reason;
    filled_quantity = nought;
    average_fill_price = nought;
  }

  abbrev checked : RiskEngine F → OrderEvent F → Option Reason → RiskEngine F × OrderEvent F
  checked engine o (some r) = (engine, answer o rejected (some (message r)))
  checked engine o none =
      (record engine { seen_orders = key_of o ∷ engine.seen_orders }, answer o submitted none)

  unfoldable pub check : RiskEngine F → OrderEvent F → Portfolio F → F → RiskEngine F × OrderEvent F
  check engine o p market_price = checked engine o (rejection_reason engine o p market_price)
