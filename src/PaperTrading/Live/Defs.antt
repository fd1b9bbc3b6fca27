-- ===== src/PaperTrading/Live/Defs.antt =====
-- The state of a live session: its rows in the database and the variables of `LiveSessionRunner.run`
-- (app/paper_trading/live_service.py). The monitoring values and the update hub, which only display
-- what is also stored here, are left out.
use mercury_trading.Base.{ℕ, suc, Bool, false, Option, none, some, List, [], ◌∷◌, String}
use mercury_trading.Base.Int.{ℤ}
use mercury_trading.PaperTrading.Events.{EventType, OrderEvent, FillEvent}
use mercury_trading.PaperTrading.Portfolio.Defs.{Portfolio, PortfolioEvent, new_portfolio}
use mercury_trading.PaperTrading.Risk.Defs.{RiskEngine, RiskConfig}
use mercury_trading.PaperTrading.Strategy.{Strategy}
use mercury_trading.PaperTrading.Execution.Defs.{ExecutionError}
use mercury_trading.PaperTrading.Number.{Number}

pub data LiveFeedState : Type 0 where
  disconnected connecting connected streaming reconnecting failed stopped : LiveFeedState

pub record LiveMarketBar (F : Type 0) : Type 0 where
  pub symbol : String
  pub timestamp : ℕ
  pub interval : String
  pub open_price : F
  pub high : F
  pub low : F
  pub close : F
  pub volume : ℤ
  pub source : String

-- What a run raises: an exception of the provider with its text, one of the broker, a window of no bars,
-- and a warm-up that is too short.
pub data LiveError : Type 0 where
  feed_error : String → LiveError
  broker_error : ExecutionError → LiveError
  division_by_zero not_enough_warmup : LiveError

-- The `timestamp` of a trace event: none, the one of a market event, or `datetime.now(UTC)`.
pub data EventTime : Type 0 where
  undated wall_clock : EventTime
  at_market : ℕ → EventTime

pub record TraceEvent : Type 0 where
  pub sequence : ℕ
  pub event_type : EventType
  pub event_time : EventTime

-- The counts that `_update_session_metrics` writes.
pub record LiveMetrics : Type 0 where
  pub market_events : ℕ
  pub signals : ℕ
  pub submitted_orders : ℕ
  pub rejected_orders : ℕ
  pub fill_count : ℕ
  pub strategy_errors : ℕ
  pub feed_disconnects : ℕ
  pub malformed_events : ℕ

-- The rows of one session; the latest trace event, order and fill come first.
pub record Rows (F : Type 0) : Type 0 where
  pub feed_state : LiveFeedState
  pub error_message : Option LiveError
  pub is_ended : Bool
  pub trace : List TraceEvent
  pub orders : List (OrderEvent F)
  pub fills : List (FillEvent F)
  pub metrics : Option LiveMetrics
  pub final_portfolio : Option (PortfolioEvent F)

-- `saved` is what is committed, `draft` what the open session has written. An exception leaves the
-- variables as they are, and drops the draft. `next_id` stands for `new_id()`.
pub record Runner (F : Type 0) : Type 0 where
  pub sequence : ℕ
  pub peak_equity : F
  pub counters : LiveMetrics
  pub previous_market_timestamp : Option ℕ
  pub portfolio : Portfolio F
  pub risk : RiskEngine F
  pub strategy : Strategy F
  pub attempts : ℕ
  pub is_stopping : Bool
  pub next_id : ℕ
  pub saved : Rows F
  pub draft : Rows F

-- The fields of `LivePaperTradingSessionCreateRequest` that the loop reads.
pub record LiveRequest : Type 0 where
  pub max_events : Option ℕ
  pub max_reconnect_attempts : ℕ
  pub respect_market_hours : Bool

abbrev no_counts : LiveMetrics
no_counts = record {
  market_events = 0;
  signals = 0;
  submitted_orders = 0;
  rejected_orders = 0;
  fill_count = 0;
  strategy_errors = 0;
  feed_disconnects = 0;
  malformed_events = 0;
}

module _ {F : Type 0} where
  -- `_create_live_session_record`
  abbrev pub new_rows : Rows F
  new_rows = record {
    feed_state = disconnected;
    error_message = none;
    is_ended = false;
    trace = [];
    orders = [];
    fills = [];
    metrics = none;
    final_portfolio = none;
  }

  -- `with self.session_factory() as session:`
  unfoldable pub open_session : Runner F → Runner F
  open_session s = record s { draft = s.saved }

  -- `session.commit()`
  unfoldable pub commit : Runner F → Runner F
  commit s = record s { saved = s.draft }

  -- `_set_status`, which also sets or clears the message
  unfoldable pub set_feed_status : LiveFeedState → Option LiveError → Runner F → Runner F
  set_feed_status status message s = record s {
    draft = record s.draft { feed_state = status; error_message = message };
  }

  -- `_record_event`
  unfoldable pub record_live_event : EventType → EventTime → Runner F → Runner F
  record_live_event type time s = record s {
    sequence = suc s.sequence;
    draft = record s.draft {
      trace =
          record { sequence = suc s.sequence; event_type = type; event_time = time }
          ∷ s.draft.trace;
    };
  }

  -- `_persist_order`
  unfoldable pub persist_live_order : OrderEvent F → Runner F → Runner F
  persist_live_order o s = record s { draft = record s.draft { orders = o ∷ s.draft.orders } }

  -- `_persist_fill`
  unfoldable pub persist_live_fill : FillEvent F → Runner F → Runner F
  persist_live_fill f s = record s { draft = record s.draft { fills = f ∷ s.draft.fills } }

  -- `_update_session_metrics`; an empty portfolio is not written.
  unfoldable pub update_session_metrics : Option (PortfolioEvent F) → Runner F → Runner F
  update_session_metrics none s = record s { draft = record s.draft { metrics = some s.counters } }
  update_session_metrics (some p) s = record s {
    draft = record s.draft { metrics = some s.counters; final_portfolio = some p };
  }

module _ {F : Type 0} ⦃num : Number F⦄ (upper : String → String) where
  -- The variables at the start of `run`.
  unfoldable pub new_runner : F → RiskConfig F → Strategy F → Runner F
  new_runner initial_cash config strategy = record {
    sequence = 0;
    peak_equity = initial_cash;
    counters = no_counts;
    previous_market_timestamp = none;
    portfolio = new_portfolio upper initial_cash;
    risk = record { config = config; seen_orders = [] };
    strategy = strategy;
    attempts = 0;
    is_stopping = false;
    next_id = 0;
    saved = new_rows;
    draft = new_rows;
  }
