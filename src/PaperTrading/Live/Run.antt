-- ===== src/PaperTrading/Live/Run.antt =====
-- `LiveSessionRunner.run` (app/paper_trading/live_service.py). What the provider and other threads do is a
-- list of streams, one for each call of `stream_bars`.
use mercury_trading.Base.{
  suc, Bool, true, false, Option, none, some, List, [], ◌∷◌, ltb, length, String, Result, ok, err,
  if◌then◌else◌,
}
use mercury_trading.PaperTrading.Number.{Number}
use mercury_trading.PaperTrading.Events.{EventType, MarketEvent}
use mercury_trading.PaperTrading.Strategy.{Strategy, observe}
use mercury_trading.PaperTrading.Execution.Broker.{PaperBroker}
use mercury_trading.PaperTrading.Live.Defs.{
  Runner, LiveMarketBar, LiveRequest, LiveError, feed_error, not_enough_warmup, undated, wall_clock,
  connecting, connected, reconnecting, failed, stopped, open_session, commit, set_feed_status,
  record_live_event,
}
use mercury_trading.PaperTrading.Live.Bar.{on_live_bar}

-- What a stream gives: a bar, or, before the next bar, the stop event that another thread sets.
pub data FeedItem (F : Type 0) : Type 0 where
  bar_of : LiveMarketBar F → FeedItem F
  stop_event : FeedItem F

-- One stream: whether the stop event is set before the loop's test, the items, and the text of the
-- exception that ends it, if one does.
pub record FeedStream (F : Type 0) : Type 0 where
  pub stopped_before : Bool
  pub items : List (FeedItem F)
  pub failure : Option String

-- How the loop over the streams ends; `waiting` where the provider has given no more.
pub data LoopEnd : Type 0 where
  left waiting : LoopEnd
  raised : LiveError → LoopEnd

-- How the iterator of a stream ends.
abbrev pub ending : Option String → Result LiveError (Unit {0})
ending none = ok tt
ending (some message) = err (feed_error message)

abbrev pub is_waiting : LoopEnd → Bool
is_waiting waiting = true
is_waiting _ = false

module _ {F : Type 0} where
  -- The `except` of the loop.
  unfoldable pub note_disconnect : Runner F → Runner F
  note_disconnect s = commit (
      record_live_event EventType.error wall_clock (
        set_feed_status reconnecting none (
          open_session (record s {
            attempts = suc s.attempts;
            counters = record s.counters { feed_disconnects = suc s.counters.feed_disconnects };
          }))))

  unfoldable pub connect : Runner F → Runner F
  connect s = commit (set_feed_status connected none (open_session s))

  -- The session after the loop.
  unfoldable pub finish_run : Runner F → Runner F
  finish_run s =
      let t = set_feed_status stopped none (open_session s) in
      commit (
        record_live_event EventType.session wall_clock
          (record t { draft = record t.draft { is_ended = true } }))

  -- The outer `except`.
  unfoldable pub fail_run : LiveError → Runner F → Runner F
  fail_run e s = commit (
      record_live_event EventType.error wall_clock
        (set_feed_status failed (some e) (open_session s)))

module _ {F : Type 0} ⦃num : Number F⦄ (upper : String → String) where
  unfoldable pub observe_all : List (MarketEvent F) → Strategy F → Strategy F
  observe_all [] st = st
  observe_all (e ∷ es) st = observe_all es (observe upper e st)

  -- `_warm_up`, on the stored bars of the window, if one is given
  unfoldable pub warm_up :
      Option (List (MarketEvent F)) → Strategy F → Result LiveError (Strategy F)
  unfolding observe_all
  warm_up none st = ok st
  warm_up (some bars) st =
      if ltb (length bars) st.slow_window then err not_enough_warmup else ok (observe_all bars st)

  abbrev pub warmed :
      Result LiveError (Strategy F) → Runner F → Result LiveError (Unit {0}) × Runner F
  warmed (err e) s = (err e, s)
  warmed (ok st) s =
      (ok tt, commit (record_live_event EventType.session undated (record s { strategy = st })))

  -- The first session of `run`.
  unfoldable pub start_run :
      Option (List (MarketEvent F)) → Runner F → Result LiveError (Unit {0}) × Runner F
  start_run bars s =
      let t =
        set_feed_status connecting none
          (record_live_event EventType.session undated (open_session s)) in
      warmed (warm_up bars t.strategy) t

  module _ (broker : PaperBroker F) (request : LiveRequest) where
    -- The step of `run_stream` after a bar.
    abbrev pub next_bar :
        Result LiveError Bool × Runner F
        → (Runner F → Result LiveError (Unit {0}) × Runner F)
        → Result LiveError (Unit {0}) × Runner F
    next_bar (err e, s) rest = (err e, s)
    next_bar (ok true, s) rest = (ok tt, s)
    next_bar (ok false, s) rest = rest s

    -- `for bar in self.provider.stream_bars(…)`
    unfoldable pub run_stream :
        List (FeedItem F) → Option String → Runner F → Result LiveError (Unit {0}) × Runner F
    run_stream [] failure s = (ending failure, s)
    run_stream (stop_event ∷ is) failure s = run_stream is failure (record s { is_stopping = true })
    run_stream (bar_of bar ∷ is) failure s =
        if s.is_stopping
        then (ok tt, s)
        else next_bar (on_live_bar upper broker request bar s) (run_stream is failure)

    -- A stream that returns leaves the loop; one that raises is followed by the next, until the attempts
    -- are used up.
    abbrev pub after_stream :
        Result LiveError (Unit {0}) × Runner F
        → (Runner F → LoopEnd × Runner F)
        → LoopEnd × Runner F
    after_stream (ok u, s) rest = (left, s)
    after_stream (err e, s) rest =
        let t = note_disconnect s in
        if ltb request.max_reconnect_attempts t.attempts then (raised e, t) else rest t

    -- `while not self.stop_event.is_set()`
    unfoldable pub run_streams : List (FeedStream F) → Runner F → LoopEnd × Runner F
    unfolding run_stream connect
    run_streams [] s = (if s.is_stopping then left else waiting, s)
    run_streams (st ∷ sts) s =
        let t = record s { is_stopping = if st.stopped_before then true else s.is_stopping } in
        if t.is_stopping
        then (left, t)
        else after_stream (run_stream st.items st.failure (connect t)) (run_streams sts)

    abbrev pub end_run : LoopEnd × Runner F → LoopEnd × Runner F
    end_run (left, s) = (left, finish_run s)
    end_run (waiting, s) = (waiting, s)
    end_run (raised e, s) = (raised e, fail_run e s)

    abbrev pub run_from :
        Result LiveError (Unit {0}) × Runner F → List (FeedStream F) → LoopEnd × Runner F
    run_from (err e, s) sts = (raised e, fail_run e s)
    run_from (ok u, s) sts = end_run (run_streams sts (record s { attempts = 0 }))

    -- `run`
    unfoldable pub run_live :
        Option (List (MarketEvent F)) → List (FeedStream F) → Runner F → LoopEnd × Runner F
    unfolding start_run run_streams
    run_live bars sts s = run_from (start_run bars s) sts
