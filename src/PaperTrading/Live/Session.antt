-- ===== src/PaperTrading/Live/Session.antt =====
-- What a whole live session keeps, and how it ends (app/paper_trading/live_service.py).
use mercury_trading.Base.{
  refl, Bool, true, false, Option, List, [], ◌∷◌, String, Result, ok, err, if◌then◌else◌, ltb,
}
use mercury_trading.PaperTrading.Number.{Number, IsOrdered}
use mercury_trading.PaperTrading.Events.{EventType, MarketEvent}
use mercury_trading.PaperTrading.Portfolio.Defs.{new_portfolio}
use mercury_trading.PaperTrading.Risk.Defs.{RiskConfig}
use mercury_trading.PaperTrading.Strategy.{Strategy}
use mercury_trading.PaperTrading.Execution.Broker.{PaperBroker}
use mercury_trading.PaperTrading.Live.Defs.{
  Runner, LiveRequest, LiveError, undated, wall_clock, open_session, commit, set_feed_status,
  record_live_event, new_runner,
}
use mercury_trading.PaperTrading.Live.Bar.{on_live_bar}
use mercury_trading.PaperTrading.Live.Run.{
  FeedItem, bar_of, stop_event, FeedStream, LoopEnd, left, waiting, raised, note_disconnect,
  connect, finish_run, fail_run, warm_up, warmed, start_run, next_bar, run_stream, after_stream,
  run_streams, end_run, run_from, run_live,
}
use mercury_trading.PaperTrading.Live.Rows.{IsConsistent}
use mercury_trading.PaperTrading.Live.Stages.{IsSound, record_live_event-IsSound}
use mercury_trading.PaperTrading.Live.Sound.{on_live_bar-IsSound}

module _ {F : Type 0} ⦃num : Number F⦄ (upper : String → String) (respect : Bool) where
  -- What is written in a session of its own, and committed.
  note_disconnect-IsSound :
      (s : Runner F) → IsSound upper respect s → IsSound upper respect (note_disconnect s)
  unfolding note_disconnect open_session set_feed_status commit record_live_event
  note_disconnect-IsSound s (v, d, l) =
      let (v', d', l') =
        record_live_event-IsSound upper respect EventType.error wall_clock
          (record s { draft = s.saved }) refl (v, v, l) in
      (d', d', l')

  connect-IsSound : (s : Runner F) → IsSound upper respect s → IsSound upper respect (connect s)
  unfolding connect open_session set_feed_status commit
  connect-IsSound s (v, d, l) = (v, v, l)

  finish_run-IsSound :
      (s : Runner F) → IsSound upper respect s → IsSound upper respect (finish_run s)
  unfolding finish_run open_session set_feed_status commit record_live_event
  finish_run-IsSound s (v, d, l) =
      let (v', d', l') =
        record_live_event-IsSound upper respect EventType.session wall_clock
          (record s { draft = s.saved }) refl (v, v, l) in
      (d', d', l')

  fail_run-IsSound :
      (e : LiveError) (s : Runner F)
      → IsSound upper respect s
      → IsSound upper respect (fail_run e s)
  unfolding fail_run open_session set_feed_status commit record_live_event
  fail_run-IsSound e s (v, d, l) =
      let (v', d', l') =
        record_live_event-IsSound upper respect EventType.error wall_clock
          (record s { draft = s.saved }) refl (v, v, l) in
      (d', d', l')

  warmed-IsSound :
      (x : Result LiveError (Strategy F)) (s : Runner F)
      → IsSound upper respect s
      → IsSound upper respect (warmed upper x s).1
  unfolding commit record_live_event
  warmed-IsSound (err e) s v = v
  warmed-IsSound (ok st) s v =
      let (v', d', l') =
        record_live_event-IsSound upper respect EventType.session undated s refl v in
      (d', d', l')

  start_run-IsSound :
      (bars : Option (List (MarketEvent F))) (s : Runner F)
      → IsSound upper respect s
      → IsSound upper respect (start_run upper bars s).1
  unfolding start_run open_session set_feed_status record_live_event
  start_run-IsSound bars s (v, d, l) = warmed-IsSound (warm_up upper bars s.strategy) _ (
      record_live_event-IsSound upper respect EventType.session undated
        (record s { draft = s.saved }) refl (v, v, l))

module _ {F : Type 0} ⦃num : Number F⦄ (upper : String → String) (laws : IsOrdered F)
    (b : PaperBroker F) (request : LiveRequest) where
  abbrev IsGood : Runner F → Type 0
  IsGood s = IsSound upper request.respect_market_hours s

  if-IsGood :
      {R : Type 0} (c : Bool) (x y : R × Runner F)
      → IsGood x.1
      → IsGood y.1
      → IsGood (if c then x else y).1
  if-IsGood true x y h k = h
  if-IsGood false x y h k = k

  run_stream-IsSound :
      (is : List (FeedItem F)) (failure : Option String) (s : Runner F)
      → IsGood s
      → IsGood (run_stream upper b request is failure s).1
  unfolding run_stream
  run_stream-IsSound [] failure s v = v
  run_stream-IsSound (stop_event ∷ is) failure s v =
      run_stream-IsSound is failure (record s { is_stopping = true }) v
  run_stream-IsSound (bar_of bar ∷ is) failure s v = if-IsGood s.is_stopping _ _ v (
      go (on_live_bar upper b request bar s) (run_stream upper b request is failure)
        (run_stream-IsSound is failure) (on_live_bar-IsSound upper laws b request bar s v))
    where
      go :
          (x : Result LiveError Bool × Runner F)
          (rest : Runner F → Result LiveError (Unit {0}) × Runner F)
          → ((t : Runner F) → IsGood t → IsGood (rest t).1)
          → IsGood x.1
          → IsGood (next_bar upper b request x rest).1
      go (err e, t) rest h v = v
      go (ok true, t) rest h v = v
      go (ok false, t) rest h v = h t v

  run_streams-IsSound :
      (sts : List (FeedStream F)) (s : Runner F)
      → IsGood s
      → IsGood (run_streams upper b request sts s).1
  unfolding run_streams
  run_streams-IsSound [] s v = v
  run_streams-IsSound (st ∷ sts) s v =
      let t = record s { is_stopping = if st.stopped_before then true else s.is_stopping } in
      if-IsGood t.is_stopping _ _ v (
        go (run_stream upper b request st.items st.failure _) (run_streams upper b request sts)
          (run_streams-IsSound sts)
          (run_stream-IsSound st.items st.failure _
            (connect-IsSound upper request.respect_market_hours t v)))
    where
      go :
          (x : Result LiveError (Unit {0}) × Runner F) (rest : Runner F → LoopEnd × Runner F)
          → ((t : Runner F) → IsGood t → IsGood (rest t).1)
          → IsGood x.1
          → IsGood (after_stream upper b request x rest).1
      go (ok u, t) rest h v = v
      go (err e, t) rest h v =
          let noted = note_disconnect-IsSound upper request.respect_market_hours t v in
          if-IsGood (ltb request.max_reconnect_attempts (note_disconnect t).attempts) _ _ noted
            (h _ noted)

  end_run-IsSound : (x : LoopEnd × Runner F) → IsGood x.1 → IsGood (end_run upper b request x).1
  end_run-IsSound (left, s) v = finish_run-IsSound upper request.respect_market_hours s v
  end_run-IsSound (waiting, s) v = v
  end_run-IsSound (raised e, s) v = fail_run-IsSound upper request.respect_market_hours e s v

  run_from-IsSound :
      (x : Result LiveError (Unit {0}) × Runner F) (sts : List (FeedStream F))
      → IsGood x.1
      → IsGood (run_from upper b request x sts).1
  run_from-IsSound (err e, s) sts v = fail_run-IsSound upper request.respect_market_hours e s v
  run_from-IsSound (ok u, s) sts v =
      end_run-IsSound _ (run_streams-IsSound sts (record s { attempts = 0 }) v)

  -- For ordered numbers, a live session from its start, over any warm-up bars and any streams of
  -- bars, disconnects and stops: its committed trace has increasing sequence numbers and strictly
  -- increasing market times across every reconnection, its order ids are distinct, each committed
  -- fill is of the symbol and side and of a positive part of a committed order that the risk
  -- engine submitted, no order is outside the hours of the market where the request respects them,
  -- and no position is short.
  pub run_live-IsSound :
      (bars : Option (List (MarketEvent F))) (sts : List (FeedStream F)) (cash : F)
      (config : RiskConfig F) (strategy : Strategy F)
      → IsGood (run_live upper b request bars sts (new_runner upper cash config strategy)).1
  unfolding run_live new_runner new_portfolio
  run_live-IsSound bars sts cash config strategy =
      let empty : IsConsistent {F = F} request.respect_market_hours 0 0 0 [] [] [] = record {
        numbered = tt;
        timed = tt;
        issued = tt;
        backed = tt;
        in_hours = λ r. tt;
      } in
      run_from-IsSound (start_run upper bars (new_runner upper cash config strategy)) sts
        (start_run-IsSound upper request.respect_market_hours bars _ (empty, empty, tt))
