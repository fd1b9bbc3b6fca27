-- ===== src/PaperTrading/Events.antt =====
-- The events of PAPER trading (app/paper_trading/events.py). A UUID and an instant are numbers; the ids
-- of signals and fills, which nothing reads, are left out.
use mercury_trading.Base.{ℕ, Bool, true, false, Option, String}

pub data EventType : Type 0 where
  market signal order fill portfolio session error : EventType

pub data SignalDirection : Type 0 where
  buy sell exit hold : SignalDirection

pub data OrderSide : Type 0 where
  buy sell : OrderSide

pub data OrderStatus : Type 0 where
  created submitted partially_filled filled rejected cancelled : OrderStatus

pub record MarketEvent (F : Type 0) : Type 0 where
  pub timestamp : ℕ
  pub symbol : String
  pub open_price : F
  pub high : F
  pub low : F
  pub close : F
  pub volume : ℕ
  pub sequence : ℕ
  pub bid : Option F
  pub ask : Option F
  pub last_price : Option F

pub record SignalEvent (F : Type 0) : Type 0 where
  pub strategy_id : String
  pub symbol : String
  pub timestamp : ℕ
  pub direction : SignalDirection
  pub intended_quantity : F
  pub reason : String

pub record OrderEvent (F : Type 0) : Type 0 where
  pub order_id : ℕ
  pub strategy_id : String
  pub symbol : String
  pub side : OrderSide
  pub quantity : F
  pub created_at : ℕ
  pub status : OrderStatus
  pub reason : Option String
  pub filled_quantity : F
  pub average_fill_price : F

pub record FillEvent (F : Type 0) : Type 0 where
  pub order_id : ℕ
  pub strategy_id : String
  pub symbol : String
  pub side : OrderSide
  pub quantity : F
  pub price : F
  pub gross_notional : F
  pub fees : F
  pub slippage_cost : F
  pub timestamp : ℕ
  pub spread_cost : F
  pub impact_cost : F

abbrev pub is_buy : OrderSide → Bool
is_buy OrderSide.buy = true
is_buy OrderSide.sell = false

abbrev pub same_side : OrderSide → OrderSide → Bool
same_side OrderSide.buy OrderSide.buy = true
same_side OrderSide.sell OrderSide.sell = true
same_side _ _ = false
