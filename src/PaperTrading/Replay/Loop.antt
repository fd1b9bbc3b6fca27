-- ===== src/PaperTrading/Replay/Loop.antt =====
-- The loop of `create_session` (app/paper_trading/service.py), over the events of
-- `HistoricalReplayStream` (app/paper_trading/stream.py).
use mercury_trading.Base.{
  ℕ, suc, none, List, [], ◌∷◌, keep, ltb, leb, if◌then◌else◌, String, Result, ok, ◌>>=◌, ◌>>◌,
}
use mercury_trading.PaperTrading.Number.{Number, nought}
use mercury_trading.PaperTrading.Events.{EventType, MarketEvent, SignalEvent, OrderEvent, created}
use mercury_trading.PaperTrading.Portfolio.Defs.{mark_price, lookup, insert}
use mercury_trading.PaperTrading.Risk.Defs.{check}
use mercury_trading.PaperTrading.Strategy.{on_market, observe}
use mercury_trading.PaperTrading.Execution.Defs.{ExecutionConfig, ExecutionError, validate_config}
use mercury_trading.PaperTrading.Execution.Broker.{PaperBroker, broker_execute}
use mercury_trading.PaperTrading.Replay.Defs.{
  Replay, is_microstructure, is_submitted, is_hold, side_of, is_zero_ℤ, later, record_event,
  persist_order, queue, book_result, or_else, use_liquidity,
}

module _ {F : Type 0} ⦃num : Number F⦄ (upper : String → String) (broker : PaperBroker F) where
  open num use {mul, div, of_nat, le, add}

  -- The broker for a due order, with what is left of the bar's liquidity.
  unfoldable pub narrowed : F → MarketEvent F → Result ExecutionError (PaperBroker F)
  narrowed available event = do
    let c : ExecutionConfig F = record broker.execution_config {
      max_participation_rate = div available (of_nat event.volume);
    }
    validate_config c
    ok (record { commission_rate = broker.commission_rate; execution_config = c })

  -- The loop over the due orders.
  unfoldable pub fill_due :
      MarketEvent F
      → List (ℕ × OrderEvent F)
      → List (String × F)
      → Replay F
      → Result ExecutionError (Replay F)
  unfolding use_liquidity
  fill_due event [] liquidity s = ok s
  fill_due event ((due, o) ∷ os) liquidity s =
      let symbol = upper o.symbol in
      let available =
        or_else upper (lookup symbol liquidity)
          (mul (of_nat event.volume) broker.execution_config.max_participation_rate) in
      let noted = insert symbol available liquidity in
      let skipped = fill_due event os noted (queue upper (suc event.sequence) o s) in
      let narrow = (do
        b ← narrowed available event
        r ← broker_execute b o event
        fill_due event os (use_liquidity upper r.fills noted)
            (book_result upper event.sequence r s)) in
      let whole = (do
        r ← broker_execute broker o event
        fill_due event os liquidity (book_result upper event.sequence r s)) in
      if is_microstructure broker.execution_config.model
      then (if le available nought then skipped else narrow)
      else whole

  abbrev pub order_of : SignalEvent F → ℕ → OrderEvent F
  order_of signal id = record {
    order_id = id;
    strategy_id = signal.strategy_id;
    symbol = signal.symbol;
    side = side_of signal.direction;
    quantity = signal.intended_quantity;
    created_at = signal.timestamp;
    status = created;
    reason = none;
    filled_quantity = nought;
    average_fill_price = nought;
  }

  -- A submitted order waits for its latency, or is executed at once.
  unfoldable pub route : MarketEvent F → OrderEvent F → Replay F → Result ExecutionError (Replay F)
  route event o s =
      let t = record s {
        counters = record s.counters {
          requested_quantity = add s.counters.requested_quantity o.quantity;
        };
      } in
      let at_once = (do
        r ← broker_execute broker o event
        ok (book_result upper event.sequence r t)) in
      if is_zero_ℤ broker.execution_config.latency_bars
      then at_once
      else ok (queue upper (later event.sequence broker.execution_config.latency_bars) o t)

  -- The order of a signal, checked by the risk engine.
  unfoldable pub place : MarketEvent F → SignalEvent F → Replay F → Result ExecutionError (Replay F)
  unfolding route
  place event signal s =
      let (risk', o) =
        check upper s.risk (order_of signal s.next_id) s.portfolio event.open_price in
      let t =
        record_event upper EventType.order
          (persist_order upper o (record s { risk = risk'; next_id = suc s.next_id })) in
      if is_hold signal.direction
      then ok s
      else if is_submitted o.status
      then route event o t
      else ok (record t {
        counters = record t.counters { rejected_orders = suc t.counters.rejected_orders };
      })

  -- The orders that are not due are kept before the due ones are filled.
  unfoldable pub open_bar : MarketEvent F → Replay F → Result ExecutionError (Replay F)
  unfolding fill_due
  open_bar event s =
      let t = record_event upper EventType.market (record s {
        counters = record s.counters { market_events = suc s.counters.market_events };
      }) in
      fill_due event (keep (λ i. leb i.0 event.sequence) t.pending_orders) []
        (record t { pending_orders = keep (λ i. ltb event.sequence i.0) t.pending_orders })

  unfoldable pub close_bar : MarketEvent F → Replay F → Replay F
  close_bar event s = record_event upper EventType.portfolio (record s {
    portfolio = mark_price upper event.symbol event.close s.portfolio;
    strategy = observe upper event s.strategy;
  })

  -- The signal of the bar, with the position marked at the open.
  unfoldable pub note_signal : MarketEvent F → Replay F → Replay F
  note_signal event s = record_event upper EventType.signal (record s {
    portfolio = mark_price upper event.symbol event.open_price s.portfolio;
    counters = record s.counters { signal_events = suc s.counters.signal_events };
  })

  -- The body of the loop after the due orders.
  unfoldable pub trade : MarketEvent F → Replay F → Result ExecutionError (Replay F)
  unfolding close_bar place note_signal
  trade event s = do
    let t = note_signal event s
    u ← place event (on_market upper t.strategy event t.portfolio) t
    ok (close_bar event u)

  -- The body of the loop over the market events.
  unfoldable pub replay_event : MarketEvent F → Replay F → Result ExecutionError (Replay F)
  unfolding open_bar trade
  replay_event event s = do t ← open_bar event s; trade event t

  unfoldable pub replay : List (MarketEvent F) → Replay F → Result ExecutionError (Replay F)
  unfolding replay_event
  replay [] s = ok s
  replay (e ∷ es) s = do t ← replay_event e s; replay es t
