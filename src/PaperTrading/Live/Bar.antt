-- ===== src/PaperTrading/Live/Bar.antt =====
-- One bar of a live feed, in `LiveSessionRunner.run` (app/paper_trading/live_service.py). Each function is
-- a stretch of the loop's body; the calls that may raise give a `Result` with the variables as they are then.
use mercury_trading.Base.{
  ℕ, suc, Bool, true, false, not, ◌&&◌, ◌||◌, Option, none, some, ◌==◌, ltb, leb, length, String,
  Result, ok, err, if◌then◌else◌,
}
use mercury_trading.Base.Int.{pos_part}
use mercury_trading.PaperTrading.Number.{Number, max_of}
use mercury_trading.PaperTrading.Clock.{can_submit_orders}
use mercury_trading.PaperTrading.Events.{EventType, MarketEvent, SignalEvent, OrderEvent, FillEvent}
use mercury_trading.PaperTrading.Portfolio.Defs.{Portfolio, mark_price, apply_fill, snapshot}
use mercury_trading.PaperTrading.Risk.Defs.{check}
use mercury_trading.PaperTrading.Strategy.{Strategy, on_market, observe}
use mercury_trading.PaperTrading.Execution.Defs.{ExecutionError}
use mercury_trading.PaperTrading.Execution.Broker.{PaperBroker, submit_order}
use mercury_trading.PaperTrading.Replay.Defs.{is_submitted, is_hold}
use mercury_trading.PaperTrading.Replay.Loop.{order_of}
use mercury_trading.PaperTrading.Live.Defs.{
  Runner, LiveMarketBar, LiveRequest, LiveError, division_by_zero, broker_error, at_market,
  streaming, open_session, commit, set_feed_status, record_live_event, persist_live_order,
  persist_live_fill, update_session_metrics,
}

-- `previous_market_timestamp is not None and timestamp <= previous_market_timestamp`
unfoldable pub is_out_of_order : Option ℕ → ℕ → Bool
is_out_of_order none timestamp = false
is_out_of_order (some previous) timestamp = leb timestamp previous

-- `max_events is not None and market_events >= max_events`
unfoldable pub reached_event_limit : Option ℕ → ℕ → Bool
reached_event_limit none market_events = false
reached_event_limit (some limit) market_events = leb limit market_events

module _ {F : Type 0} ⦃num : Number F⦄ where
  -- `_market_event_from_bar`; a validated volume is not negative.
  unfoldable pub market_event_from_bar : LiveMarketBar F → ℕ → MarketEvent F
  market_event_from_bar bar sequence = record {
    timestamp = bar.timestamp;
    symbol = bar.symbol;
    open_price = bar.open_price;
    high = bar.high;
    low = bar.low;
    close = bar.close;
    volume = pos_part bar.volume;
    sequence = sequence;
    bid = none;
    ask = none;
    last_price = none;
  }

  -- The branch of a bar that is not later than the one before.
  unfoldable pub reject_stale : MarketEvent F → Runner F → Runner F
  reject_stale event s =
      let t = record s {
        counters = record s.counters { malformed_events = suc s.counters.malformed_events };
      } in
      commit (
        update_session_metrics none
          (record_live_event EventType.error (at_market event.timestamp) (open_session t)))

  -- The `except` of the strategy's call.
  unfoldable pub strategy_failed : (String → String) → MarketEvent F → Runner F → Runner F
  strategy_failed upper event s =
      let t = record_live_event EventType.error (at_market event.timestamp) (record s {
        counters = record s.counters { strategy_errors = suc s.counters.strategy_errors };
      }) in
      commit (record t { strategy = observe upper event t.strategy })

  unfoldable pub note_live_signal : SignalEvent F → Runner F → Runner F
  note_live_signal signal s =
      record_live_event EventType.signal (at_market signal.timestamp)
        (record s { counters = record s.counters { signals = suc s.counters.signals } })

  unfoldable pub block_order : MarketEvent F → Runner F → Runner F
  block_order event s = record_live_event EventType.error (at_market event.timestamp) (record s {
    counters = record s.counters { rejected_orders = suc s.counters.rejected_orders };
  })

  unfoldable pub note_order : OrderEvent F → Runner F → Runner F
  note_order o s =
      record_live_event EventType.order (at_market o.created_at) (persist_live_order o s)

  unfoldable pub refuse_order : Runner F → Runner F
  refuse_order s = record s {
    counters = record s.counters { rejected_orders = suc s.counters.rejected_orders };
  }

module _ {F : Type 0} ⦃num : Number F⦄ (upper : String → String) where
  -- `strategy.on_market`, whose averages divide by the windows.
  unfoldable pub live_signal :
      Strategy F → MarketEvent F → Portfolio F → Result LiveError (SignalEvent F)
  live_signal st event p =
      if not (ltb (length st.history) st.slow_window)
        && (st.fast_window == 0 || st.slow_window == 0)
      then err division_by_zero
      else ok (on_market upper st event p)

  unfoldable pub begin_bar : MarketEvent F → Runner F → Runner F
  begin_bar event s =
      let t = record s {
        previous_market_timestamp = some event.timestamp;
        counters = record s.counters { market_events = suc s.counters.market_events };
      } in
      let u =
        record_live_event EventType.market (at_market event.timestamp)
          (set_feed_status streaming none (open_session t)) in
      record u { portfolio = mark_price upper event.symbol event.open_price u.portfolio }

  unfoldable pub book_live_fill : FillEvent F → Runner F → Runner F
  book_live_fill f s =
      let t = persist_live_fill f s in
      record_live_event EventType.fill (at_market f.timestamp) (record t {
        portfolio = apply_fill upper f t.portfolio;
        counters = record t.counters {
          fill_count = suc t.counters.fill_count;
          submitted_orders = suc t.counters.submitted_orders;
        };
      })

  abbrev pub booked :
      Result ExecutionError (FillEvent F) → Runner F → Result LiveError (Unit {0}) × Runner F
  booked (err e) s = (err (broker_error e), s)
  booked (ok f) s = (ok tt, book_live_fill f s)

  module _ (broker : PaperBroker F) where
    -- The order of a signal goes through the risk engine and, if it is submitted, to the broker.
    unfoldable pub send_order :
        MarketEvent F → SignalEvent F → Runner F → Result LiveError (Unit {0}) × Runner F
    send_order event signal s =
        let (risk', o) =
          check upper s.risk (order_of upper broker signal s.next_id) s.portfolio
            event.open_price in
        let t = note_order o (record s { risk = risk'; next_id = suc s.next_id }) in
        if is_submitted o.status
        then booked (submit_order broker o event.open_price) t
        else (ok tt, refuse_order t)

    unfoldable pub act_on :
        LiveRequest
        → MarketEvent F
        → SignalEvent F
        → Runner F
        → Result LiveError (Unit {0}) × Runner F
    unfolding send_order
    act_on request event signal s =
        if is_hold signal.direction
        then (ok tt, s)
        else if request.respect_market_hours && not (can_submit_orders event.timestamp)
        then (ok tt, block_order event s)
        else send_order event signal s

  -- The rest of the body, up to the commit.
  unfoldable pub close_live_bar : MarketEvent F → Runner F → Runner F
  close_live_bar event s =
      let p = mark_price upper event.symbol event.close s.portfolio in
      let view = snapshot upper p event.timestamp in
      let t =
        record_live_event EventType.portfolio (at_market event.timestamp)
          (record s { portfolio = p; peak_equity = max_of s.peak_equity view.equity }) in
      commit (
        update_session_metrics (some view) (record t { strategy = observe upper event t.strategy }))

  -- With `true` the loop over the bars is left.
  abbrev pub finish_bar :
      LiveRequest
      → MarketEvent F
      → Result LiveError (Unit {0}) × Runner F
      → Result LiveError Bool × Runner F
  finish_bar request event (err e, s) = (err e, s)
  finish_bar request event (ok u, s) =
      let t = close_live_bar event s in
      if reached_event_limit request.max_events t.counters.market_events
      then (ok true, record t { is_stopping = true })
      else (ok false, t)

  abbrev pub after_signal :
      PaperBroker F
      → LiveRequest
      → MarketEvent F
      → Result LiveError (SignalEvent F)
      → Runner F
      → Result LiveError Bool × Runner F
  after_signal broker request event (err e) s = (ok false, strategy_failed upper event s)
  after_signal broker request event (ok signal) s =
      finish_bar request event (act_on broker request event signal (note_live_signal signal s))

  unfoldable pub trade_bar :
      PaperBroker F → LiveRequest → MarketEvent F → Runner F → Result LiveError Bool × Runner F
  trade_bar broker request event s =
      after_signal broker request event (live_signal s.strategy event s.portfolio) s

  -- The body of the loop over the bars of a stream, after its test of the stop event.
  unfoldable pub on_live_bar :
      PaperBroker F → LiveRequest → LiveMarketBar F → Runner F → Result LiveError Bool × Runner F
  unfolding begin_bar trade_bar
  on_live_bar broker request bar s =
      let event = market_event_from_bar bar (suc s.counters.market_events) in
      let t = record s { attempts = 0 } in
      if is_out_of_order s.previous_market_timestamp event.timestamp
      then (ok false, reject_stale event t)
      else trade_bar broker request event (begin_bar event t)
