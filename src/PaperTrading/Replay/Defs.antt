-- ===== src/PaperTrading/Replay/Defs.antt =====
-- The state of a replay and the writes to it, in `create_session` (app/paper_trading/service.py).
use mercury_trading.Base.{
  ℕ, suc, ◌+◌, ◌-◌, Bool, true, false, Option, none, some, List, [], ◌∷◌, ◌++◌, keep, ◌==◌,
  if◌then◌else◌, String,
}
use mercury_trading.Base.Int.{ℤ, pos, negsuc}
use mercury_trading.PaperTrading.Number.{Number, nought}
use mercury_trading.PaperTrading.Events.{
  EventType, SignalDirection, OrderEvent, OrderSide, OrderStatus, FillEvent, submitted,
  partially_filled,
}
use mercury_trading.PaperTrading.Portfolio.Defs.{Portfolio, apply_fill, lookup, insert}
use mercury_trading.PaperTrading.Risk.Defs.{RiskEngine}
use mercury_trading.PaperTrading.Strategy.{Strategy}
use mercury_trading.PaperTrading.Execution.Defs.{
  ExecutionModelName, microstructure, ExecutionResult,
}

pub record Counters (F : Type 0) : Type 0 where
  pub market_events : ℕ
  pub signal_events : ℕ
  pub rejected_orders : ℕ
  pub filled_orders : ℕ
  pub partial_fills : ℕ
  pub requested_quantity : F
  pub filled_quantity : F
  pub spread_cost : F
  pub impact_cost : F

-- The variables of the loop, with the rows of the session: its trace, the latest first, its orders by
-- id, and its fills. `next_id` stands for `new_id()`.
pub record Replay (F : Type 0) : Type 0 where
  pub sequence : ℕ
  pub portfolio : Portfolio F
  pub risk : RiskEngine F
  pub strategy : Strategy F
  pub pending_orders : List (ℕ × OrderEvent F)
  pub trace : List (ℕ × EventType)
  pub orders : List (ℕ × OrderEvent F)
  pub fills : List (FillEvent F)
  pub counters : Counters F
  pub next_id : ℕ

abbrev pub is_microstructure : ExecutionModelName → Bool
is_microstructure microstructure = true
is_microstructure _ = false

abbrev pub is_partial : OrderStatus → Bool
is_partial partially_filled = true
is_partial _ = false

abbrev pub is_submitted : OrderStatus → Bool
is_submitted submitted = true
is_submitted _ = false

abbrev pub is_hold : SignalDirection → Bool
is_hold SignalDirection.hold = true
is_hold _ = false

abbrev pub side_of : SignalDirection → OrderSide
side_of SignalDirection.buy = OrderSide.buy
side_of _ = OrderSide.sell

abbrev pub is_zero_ℤ : ℤ → Bool
is_zero_ℤ (pos n) = n == 0
is_zero_ℤ (negsuc n) = false

-- `market_event.sequence + execution_config.latency_bars`
abbrev pub later : ℕ → ℤ → ℕ
later n (pos k) = n + k
later n (negsuc k) = n - suc k

module _ {F : Type 0} ⦃num : Number F⦄ (upper : String → String) where
  open num use {add, sub, mul, div, of_nat, le}

  -- `_record_event`
  unfoldable pub record_event : EventType → Replay F → Replay F
  record_event t s = record s { sequence = suc s.sequence; trace = (suc s.sequence, t) ∷ s.trace }

  -- `_persist_order`
  unfoldable pub persist_order : OrderEvent F → Replay F → Replay F
  persist_order o s = record s {
    orders = (o.order_id, o) ∷ keep (λ r. if r.0 == o.order_id then false else true) s.orders;
  }

  -- The body of the loop over the fills of a result.
  unfoldable pub book_fill : FillEvent F → Replay F → Replay F
  book_fill f s = record_event EventType.fill (record s {
    fills = f ∷ s.fills;
    portfolio = apply_fill upper f s.portfolio;
    counters = record s.counters {
      filled_orders = suc s.counters.filled_orders;
      filled_quantity = add s.counters.filled_quantity f.quantity;
      spread_cost = add s.counters.spread_cost f.spread_cost;
      impact_cost = add s.counters.impact_cost f.impact_cost;
    };
  })

  unfoldable pub book_fills : List (FillEvent F) → Replay F → Replay F
  unfolding book_fill
  book_fills [] s = s
  book_fills (f ∷ fs) s = book_fills fs (book_fill f s)

  unfoldable pub queue : ℕ → OrderEvent F → Replay F → Replay F
  queue due o s = record s { pending_orders = s.pending_orders ++ ((due, o) ∷ []) }

  -- What follows the execution of an order: a partially filled one is queued for the next bar.
  unfoldable pub book_result : ℕ → ExecutionResult F → Replay F → Replay F
  unfolding book_fills persist_order queue
  book_result now r s =
      let t = book_fills r.fills (persist_order r.order s) in
      if is_partial r.order.status
      then queue (suc now) r.order (record t {
        counters = record t.counters { partial_fills = suc t.counters.partial_fills };
      })
      else t

  abbrev pub or_else : Option F → F → F
  or_else none d = d
  or_else (some x) d = x

  -- `remaining_liquidity[fill.symbol.upper()] -= fill.quantity`, for each fill.
  unfoldable pub use_liquidity : List (FillEvent F) → List (String × F) → List (String × F)
  use_liquidity [] liquidity = liquidity
  use_liquidity (f ∷ fs) liquidity = use_liquidity fs (
      insert (upper f.symbol) (sub (or_else (lookup (upper f.symbol) liquidity) nought) f.quantity)
        liquidity)
