-- ===== src/PaperTrading/Live/Limit.antt =====
-- The bound that `max_events` sets on a live session (app/paper_trading/live_service.py).
use mercury_trading.Base.{
  ℕ, suc, ◌≡◌, sym, ◌∙◌, ◌<◌, ◌≤◌, ◌+◌, refl, Bool, true, false, not, ◌&&◌, Option, some, List, [],
  ◌∷◌, inl, inr, arith, leb, String, Result, ok, err, Bool-cases, if◌then◌else◌, ltb, Result-cases,
}
use mercury_trading.PaperTrading.Number.{Number}
use mercury_trading.PaperTrading.Clock.{can_submit_orders}
use mercury_trading.PaperTrading.Events.{MarketEvent, SignalEvent, FillEvent}
use mercury_trading.PaperTrading.Risk.Defs.{RiskConfig, check}
use mercury_trading.PaperTrading.Strategy.{Strategy}
use mercury_trading.PaperTrading.Execution.Defs.{ExecutionError}
use mercury_trading.PaperTrading.Execution.Broker.{PaperBroker, submit_order}
use mercury_trading.PaperTrading.Replay.Defs.{is_submitted, is_hold}
use mercury_trading.PaperTrading.Replay.Loop.{order_of}
use mercury_trading.PaperTrading.Live.Defs.{
  Runner, LiveRequest, LiveMarketBar, LiveError, open_session, commit, set_feed_status,
  record_live_event, persist_live_order, persist_live_fill, update_session_metrics, new_runner,
}
use mercury_trading.PaperTrading.Live.Bar.{
  is_out_of_order, reached_event_limit, market_event_from_bar, reject_stale, strategy_failed,
  note_live_signal, block_order, note_order, refuse_order, begin_bar, book_live_fill, booked,
  send_order, act_on, close_live_bar, finish_bar, live_signal, trade_bar, on_live_bar,
}
use mercury_trading.PaperTrading.Live.Run.{
  FeedItem, bar_of, stop_event, FeedStream, LoopEnd, left, waiting, raised, note_disconnect,
  connect, finish_run, fail_run, warm_up, warmed, start_run, next_bar, run_stream, after_stream,
  run_streams, end_run, run_from, run_live,
}

module _ {F : Type 0} where
  -- The counts of the bound are the same.
  abbrev Same : Runner F → Runner F → Type 0
  Same s t =
      (t.counters.market_events ≡ s.counters.market_events)
      × (t.counters.strategy_errors ≡ s.counters.strategy_errors)
      × (t.counters.feed_disconnects ≡ s.counters.feed_disconnects)

  module _ (limit : ℕ) where
    -- The events that were counted, without those that no test of the limit followed.
    abbrev pub IsAtMost : Runner F → Type 0
    IsAtMost s =
        s.counters.market_events ≤ limit + s.counters.strategy_errors + s.counters.feed_disconnects

    abbrev IsBelow : Runner F → Type 0
    IsBelow s =
        s.counters.market_events < limit + s.counters.strategy_errors + s.counters.feed_disconnects

    -- After a bar that lets the loop go on, there is room for another one.
    abbrev IsLimited : Result LiveError Bool × Runner F → Type 0
    IsLimited (ok false, s) = IsBelow s
    IsLimited (_, s) = IsAtMost s

    IsLimited-if :
        (c : Bool) (x y : Runner F)
        → (c ≡ true → IsAtMost x)
        → (c ≡ false → IsBelow y)
        → IsLimited (if c then (ok true, x) else (ok false, y))
    IsLimited-if true x y h k = h refl
    IsLimited-if false x y h k = k refl

    if-IsAtMost :
        {R : Type 0} (c : Bool) (x y : R × Runner F)
        → (c ≡ true → IsAtMost x.1)
        → (c ≡ false → IsAtMost y.1)
        → IsAtMost (if c then x else y).1
    if-IsAtMost true x y h k = h refl
    if-IsAtMost false x y h k = k refl

module _ {F : Type 0} ⦃num : Number F⦄ (upper : String → String) (b : PaperBroker F)
    (request : LiveRequest) where
  if-Same :
      {R : Type 0} (s : Runner F) (c : Bool) (x y : R × Runner F)
      → Same s x.1
      → Same s y.1
      → Same s (if c then x else y).1
  if-Same s true x y h k = h
  if-Same s false x y h k = k

  booked-Same :
      (x : Result ExecutionError (FillEvent F)) (s : Runner F) → Same s (booked upper x s).1
  unfolding book_live_fill persist_live_fill record_live_event
  booked-Same (err e) s = (refl, refl, refl)
  booked-Same (ok f) s = (refl, refl, refl)

  -- Acting on a signal counts no market event, error or disconnect.
  act_on-Same :
      (event : MarketEvent F) (signal : SignalEvent F) (s : Runner F)
      → Same s (act_on upper b request event signal s).1
  unfolding act_on block_order send_order note_order persist_live_order record_live_event
      refuse_order
  act_on-Same event signal s =
      let price = event.open_price in
      let o = (check upper s.risk (order_of upper b signal s.next_id) s.portfolio price).1 in
      if-Same s (is_hold signal.direction) _ _ (refl, refl, refl)
        (if-Same s (request.respect_market_hours && not (can_submit_orders event.timestamp)) _ _
          (refl, refl, refl)
          (if-Same s (is_submitted o.status) _ _ (booked-Same (submit_order b o price) _)
            (refl, refl, refl)))

  module _ (limit : ℕ) (bounded : request.max_events ≡ some limit) where
    finish_bar-IsLimited :
        (event : MarketEvent F) (s : Runner F) (x : Result LiveError (Unit {0}) × Runner F)
        → IsAtMost limit s
        → Same s x.1
        → IsLimited limit (finish_bar upper request event x)
    unfolding close_live_bar commit update_session_metrics record_live_event reached_event_limit
    finish_bar-IsLimited event s (err e, t) h same = omega (arith, h, same.0, same.1, same.2)
    finish_bar-IsLimited event s (ok u, t) h same =
        let count = t.counters.market_events in
        let at_limit : reached_event_limit request.max_events count ≡ leb limit count =
          rw bounded refl in
        IsLimited-if limit (reached_event_limit request.max_events count) _ _
          (λ reached. omega (arith, h, same.0, same.1, same.2))
          (λ below.
            let room : leb limit count ≡ false = sym at_limit ∙ below in ground (arith, room))

    trade_bar-IsLimited :
        (event : MarketEvent F) (s : Runner F)
        → IsAtMost limit s
        → IsLimited limit (trade_bar upper b request event s)
    unfolding trade_bar strategy_failed note_live_signal commit record_live_event
    trade_bar-IsLimited event s h =
        elim (Result-cases (live_signal upper s.strategy event s.portfolio)) [
          | inl (signal, e) ↦ rw e (
              finish_bar-IsLimited event s _ h
                (act_on-Same event signal (note_live_signal signal s)))
          | inr (x, e) ↦ rw e (omega (arith, h))
        ]

    on_live_bar-IsLimited :
        (bar : LiveMarketBar F) (s : Runner F)
        → IsBelow limit s
        → IsLimited limit (on_live_bar upper b request bar s)
    unfolding on_live_bar begin_bar reject_stale open_session set_feed_status commit
        update_session_metrics record_live_event
    on_live_bar-IsLimited bar s h =
        let event = market_event_from_bar bar (suc s.counters.market_events) in
        elim (Bool-cases (is_out_of_order s.previous_market_timestamp event.timestamp)) [
          | inl stale ↦ rw stale h
          | inr fresh ↦ rw fresh (trade_bar-IsLimited event _ (omega (arith, h)))
        ]

    -- Where the stop event is not set there is room for a bar.
    abbrev IsOpen : Runner F → Type 0
    IsOpen s = IsAtMost limit s × (s.is_stopping ≡ false → IsBelow limit s)

    run_stream-IsAtMost :
        (is : List (FeedItem F)) (failure : Option String) (s : Runner F)
        → IsOpen s
        → IsAtMost limit (run_stream upper b request is failure s).1
    unfolding run_stream
    run_stream-IsAtMost [] failure s h = h.0
    run_stream-IsAtMost (stop_event ∷ is) failure s h =
        run_stream-IsAtMost is failure (record s { is_stopping = true })
          (h.0, λ e. absurd (ground arith))
    run_stream-IsAtMost (bar_of bar ∷ is) failure s h =
        if-IsAtMost limit s.is_stopping _ _ (λ stopping. h.0)
          (λ running.
            go (on_live_bar upper b request bar s) (run_stream upper b request is failure)
              (run_stream-IsAtMost is failure) (on_live_bar-IsLimited bar s (h.1 running)))
      where
        go :
            (x : Result LiveError Bool × Runner F)
            (rest : Runner F → Result LiveError (Unit {0}) × Runner F)
            → ((t : Runner F) → IsOpen t → IsAtMost limit (rest t).1)
            → IsLimited limit x
            → IsAtMost limit (next_bar upper b request x rest).1
        go (err e, t) rest k h = h
        go (ok true, t) rest k h = h
        go (ok false, t) rest k h = k t (omega (arith, h), λ running. h)

    run_streams-IsAtMost :
        (sts : List (FeedStream F)) (s : Runner F)
        → IsOpen s
        → IsAtMost limit (run_streams upper b request sts s).1
    unfolding run_streams connect note_disconnect open_session set_feed_status commit
        record_live_event
    run_streams-IsAtMost [] s h = h.0
    run_streams-IsAtMost (st ∷ sts) s h =
        let t = record s { is_stopping = if st.stopped_before then true else s.is_stopping } in
        if-IsAtMost limit t.is_stopping _ _ (λ stopping. h.0)
          (λ running.
            go (run_stream upper b request st.items st.failure _) (run_streams upper b request sts)
              (run_streams-IsAtMost sts)
              (run_stream-IsAtMost st.items st.failure _ (h.0, λ e. h.1 (ground (arith, running)))))
      where
        go :
            (x : Result LiveError (Unit {0}) × Runner F) (rest : Runner F → LoopEnd × Runner F)
            → ((t : Runner F) → IsOpen t → IsAtMost limit (rest t).1)
            → IsAtMost limit x.1
            → IsAtMost limit (after_stream upper b request x rest).1
        go (ok u, t) rest k h = h
        go (err e, t) rest k h =
            if-IsAtMost limit (ltb request.max_reconnect_attempts (note_disconnect t).attempts) _ _
              (λ used_up. omega (arith, h)) (λ again. k _ (omega (arith, h), λ e. omega (arith, h)))

    end_run-IsAtMost :
        (x : LoopEnd × Runner F) → IsAtMost limit x.1 → IsAtMost limit (end_run upper b request x).1
    unfolding finish_run fail_run open_session set_feed_status commit record_live_event
    end_run-IsAtMost (left, s) h = h
    end_run-IsAtMost (waiting, s) h = h
    end_run-IsAtMost (raised e, s) h = h

    run_from-IsAtMost :
        (x : Result LiveError (Unit {0}) × Runner F) (sts : List (FeedStream F))
        → IsBelow limit x.1
        → IsAtMost limit (run_from upper b request x sts).1
    unfolding fail_run open_session set_feed_status commit record_live_event
    run_from-IsAtMost (err e, s) sts h = omega (arith, h)
    run_from-IsAtMost (ok u, s) sts h =
        end_run-IsAtMost _
          (run_streams-IsAtMost sts (record s { attempts = 0 }) (omega (arith, h), λ running. h))

    warmed-IsBelow :
        (x : Result LiveError (Strategy F)) (s : Runner F)
        → IsBelow limit s
        → IsBelow limit (warmed upper x s).1
    unfolding commit record_live_event
    warmed-IsBelow (err e) s h = h
    warmed-IsBelow (ok st) s h = h

    -- For a session with a positive limit on its events, over any warm-up and any streams: the
    -- market events that it counts are at most the limit, the errors of the strategy and the
    -- disconnects together.
    pub run_live-IsAtMost :
        (bars : Option (List (MarketEvent F))) (sts : List (FeedStream F)) (cash : F)
        (config : RiskConfig F) (strategy : Strategy F)
        → 0 < limit
        → IsAtMost limit
            (run_live upper b request bars sts (new_runner upper cash config strategy)).1
    unfolding run_live start_run new_runner open_session set_feed_status record_live_event
    run_live-IsAtMost bars sts cash config strategy positive =
        run_from-IsAtMost (start_run upper bars (new_runner upper cash config strategy)) sts
          (warmed-IsBelow (warm_up upper bars strategy) _ (omega (arith, positive)))
