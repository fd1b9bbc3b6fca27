-- ===== src/PaperTrading/Live/Reconnect.antt =====
-- How a live session ends, and when it gives its feed up (app/paper_trading/live_service.py).
use mercury_trading.Base.{
  suc, ◌≡◌, ◌<◌, ◌≤◌, ◌+◌, refl, Bool, true, false, Option, none, some, List, [], ◌∷◌, inl, inr,
  arith, String, Result, ok, err, Bool-cases, if◌then◌else◌, ltb, length, All,
}
use mercury_trading.PaperTrading.Number.{Number}
use mercury_trading.PaperTrading.Events.{MarketEvent}
use mercury_trading.PaperTrading.Strategy.{Strategy}
use mercury_trading.PaperTrading.Execution.Broker.{PaperBroker}
use mercury_trading.PaperTrading.Live.Defs.{
  Runner, LiveRequest, LiveError, failed, stopped, open_session, commit, set_feed_status,
  record_live_event,
}
use mercury_trading.PaperTrading.Live.Run.{
  FeedStream, LoopEnd, left, waiting, raised, note_disconnect, connect, finish_run, fail_run,
  warm_up, warmed, start_run, run_stream, after_stream, run_streams, end_run, run_from, run_live,
}

abbrev pub IsRaised : LoopEnd → Type 0
IsRaised (raised e) = Unit
IsRaised _ = ⊥

module _ {F : Type 0} where
  -- What the committed row says after a run that left its loop or raised.
  abbrev pub IsSettled : LoopEnd × Runner F → Type 0
  IsSettled (left, s) =
      (s.saved.feed_state ≡ stopped) × (s.saved.is_ended ≡ true) × (s.saved.error_message ≡ none)
  IsSettled (raised e, s) = (s.saved.feed_state ≡ failed) × (s.saved.error_message ≡ some e)
  IsSettled (waiting, s) = Unit

  -- A stream that raises before its first bar.
  abbrev pub IsDead : FeedStream F → Type 0
  IsDead st = (st.stopped_before ≡ false) × (st.items ≡ []) × ((e : String) × (st.failure ≡ some e))

module _ {F : Type 0} ⦃num : Number F⦄ (upper : String → String) (b : PaperBroker F)
    (request : LiveRequest) where
  end_run-IsSettled : (x : LoopEnd × Runner F) → IsSettled (end_run upper b request x)
  unfolding finish_run fail_run open_session commit set_feed_status record_live_event
  end_run-IsSettled (left, s) = (refl, refl, refl)
  end_run-IsSettled (waiting, s) = tt
  end_run-IsSettled (raised e, s) = (refl, refl)

  -- A run that leaves its loop ends with the row stopped, ended and without a message; one that
  -- raises ends with the row failed and the message of what was raised.
  pub run_live-IsSettled :
      (bars : Option (List (MarketEvent F))) (sts : List (FeedStream F)) (s : Runner F)
      → IsSettled (run_live upper b request bars sts s)
  unfolding run_live fail_run open_session commit set_feed_status record_live_event
  run_live-IsSettled bars sts s = go (start_run upper bars s)
    where
      go : (x : Result LiveError (Unit {0}) × Runner F) → IsSettled (run_from upper b request x sts)
      go (err e, t) = (refl, refl)
      go (ok u, t) = end_run-IsSettled _

  dead_stream :
      (st : FeedStream F) (t : Runner F)
      → IsDead st
      → (e : LiveError) × (run_stream upper b request st.items st.failure t ≡ (err e, t))
  unfolding run_stream
  dead_stream st t (going, empty, (e, fails)) = rw (empty, fails) (_, refl)

  IsRaised-else :
      (c : Bool) (x y : LoopEnd × Runner F)
      → c ≡ false
      → IsRaised y.0
      → IsRaised (if c then x else y).0
  IsRaised-else true x y off h = absurd (ground arith)
  IsRaised-else false x y off h = h

  -- After a stream that raised, either the attempts are used up or the next stream is asked for.
  IsRaised-after :
      (x : Result LiveError (Unit {0}) × Runner F) (rest : Runner F → LoopEnd × Runner F)
      (e : LiveError) (t : Runner F)
      → x ≡ (err e, t)
      → (ltb request.max_reconnect_attempts (suc t.attempts) ≡ false
          → IsRaised (rest (note_disconnect t)).0)
      → IsRaised (after_stream upper b request x rest).0
  unfolding note_disconnect open_session commit set_feed_status record_live_event
  IsRaised-after x rest e t same again =
      rw same (elim (Bool-cases (ltb request.max_reconnect_attempts (suc t.attempts))) [
        | inl used_up ↦ rw used_up tt
        | inr left_over ↦ rw left_over (again left_over)
      ])

  -- The attempts are used up by as many dead streams as are left of them and one more.
  run_streams-gives_up :
      (sts : List (FeedStream F)) (s : Runner F)
      → s.is_stopping ≡ false
      → s.attempts ≤ request.max_reconnect_attempts
      → request.max_reconnect_attempts < length sts + s.attempts
      → All IsDead sts
      → IsRaised (run_streams upper b request sts s).0
  unfolding run_streams connect note_disconnect open_session commit set_feed_status
      record_live_event
  run_streams-gives_up [] s running few many dead = absurd (omega (arith, few, many))
  run_streams-gives_up (st ∷ sts) s running few many (dead, others) =
      let t = record s { is_stopping = if st.stopped_before then true else s.is_stopping } in
      let goes : t.is_stopping ≡ false = rw (dead.0, running) refl in
      let (e, raises) = dead_stream st (connect t) dead in
      IsRaised-else t.is_stopping _ _ goes (
        IsRaised-after _ (run_streams upper b request sts) e (connect t) raises λ again.
          run_streams-gives_up sts (note_disconnect (connect t)) goes (ground arith)
            (omega (arith, many)) others)

  warmed-is_stopping :
      (x : Result LiveError (Strategy F)) (s : Runner F)
      → (warmed upper x s).1.is_stopping ≡ s.is_stopping
  unfolding commit record_live_event
  warmed-is_stopping (err e) s = refl
  warmed-is_stopping (ok st) s = refl

  start_run-is_stopping :
      (bars : Option (List (MarketEvent F))) (s : Runner F)
      → (start_run upper bars s).1.is_stopping ≡ s.is_stopping
  unfolding start_run open_session set_feed_status record_live_event
  start_run-is_stopping bars s = warmed-is_stopping (warm_up upper bars s.strategy) _

  end_run-failed :
      (x : LoopEnd × Runner F)
      → IsRaised x.0
      → (end_run upper b request x).1.saved.feed_state ≡ failed
  unfolding fail_run open_session commit set_feed_status record_live_event
  end_run-failed (left, s) h = elim h [ ]
  end_run-failed (waiting, s) h = elim h [ ]
  end_run-failed (raised e, s) h = refl

  run_from-gives_up :
      (x : Result LiveError (Unit {0}) × Runner F) (sts : List (FeedStream F))
      → x.1.is_stopping ≡ false
      → request.max_reconnect_attempts < length sts
      → All IsDead sts
      → (run_from upper b request x sts).1.saved.feed_state ≡ failed
  unfolding fail_run open_session commit set_feed_status record_live_event
  run_from-gives_up (err e, s) sts running many dead = refl
  run_from-gives_up (ok u, s) sts running many dead = end_run-failed _ (
      run_streams-gives_up sts (record s { attempts = 0 }) running (omega arith)
        (omega (arith, many)) dead)

  -- A session that is not asked to stop and whose feed raises before its first bar on every
  -- connection, on more of them than the reconnect attempts that the request allows, ends with its
  -- row failed.
  pub run_live-gives_up :
      (bars : Option (List (MarketEvent F))) (sts : List (FeedStream F)) (s : Runner F)
      → s.is_stopping ≡ false
      → request.max_reconnect_attempts < length sts
      → All IsDead sts
      → (run_live upper b request bars sts s).1.saved.feed_state ≡ failed
  unfolding run_live
  run_live-gives_up bars sts s running many dead =
      run_from-gives_up (start_run upper bars s) sts (rw (start_run-is_stopping bars s) running)
        many dead
