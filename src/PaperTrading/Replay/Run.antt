-- ===== src/PaperTrading/Replay/Run.antt =====
-- The whole loop of the replay (app/paper_trading/service.py).
use mercury_trading.Base.{
  ℕ, ◌≡◌, refl, true, false, List, [], ◌∷◌, ◌++◌, String, Result, ok, err, ◌>>=◌, Result-cases,
  All-keep, All-map_of, Bool-cases, inl, inr,
}
use mercury_trading.Base.Int.{pos, ltb_ℤ}
use mercury_trading.PaperTrading.Number.{Number, IsOrdered}
use mercury_trading.PaperTrading.Events.{MarketEvent, SignalEvent, OrderEvent}
use mercury_trading.PaperTrading.Risk.Defs.{check}
use mercury_trading.PaperTrading.Strategy.{on_market}
use mercury_trading.PaperTrading.Execution.Defs.{ExecutionError, is_open}
use mercury_trading.PaperTrading.Execution.Broker.{PaperBroker}
use mercury_trading.PaperTrading.Replay.Defs.{
  Replay, is_submitted, is_hold, is_zero_ℤ, record_event, persist_order,
}
use mercury_trading.PaperTrading.Replay.Loop.{
  order_of, route, place, open_bar, close_bar, note_signal, trade, replay_event, replay,
}
use mercury_trading.PaperTrading.Replay.Sound.{
  IsSound, IsRun, later-lt, submitted-is_open, queue-IsSound, book_result-IsSound, executed-IsRun,
  fill_due-IsRun, kept-All,
}

module _ {F : Type 0} ⦃num : Number F⦄ (upper : String → String) (laws : IsOrdered F) where
  route-IsRun :
      (b : PaperBroker F) (event : MarketEvent F) (o : OrderEvent F) (s : Replay F)
      → ltb_ℤ b.execution_config.latency_bars (pos 0) ≡ false
      → is_open o.status ≡ true
      → IsSound upper event.sequence s
      → IsRun upper event.sequence (route upper b event o s)
  unfolding route
  route-IsRun b event o s nonneg open_now v =
      let n = event.sequence in
      elim (Bool-cases (is_zero_ℤ b.execution_config.latency_bars)) [
        | inl at_once ↦ rw at_once (
            executed-IsRun upper laws n b event o _ open_now λ r.
              book_result-IsSound upper n r _
                (record { numbered = v.numbered; pending = v.pending }))
        | inr waits ↦ rw waits (
            queue-IsSound upper n _ o _ (later-lt n b.execution_config.latency_bars nonneg waits)
              open_now (record { numbered = v.numbered; pending = v.pending }))
      ]

  place-IsRun :
      (b : PaperBroker F) (event : MarketEvent F) (signal : SignalEvent F) (s : Replay F)
      → ltb_ℤ b.execution_config.latency_bars (pos 0) ≡ false
      → IsSound upper event.sequence s
      → IsRun upper event.sequence (place upper b event signal s)
  unfolding place record_event persist_order
  place-IsRun b event signal s nonneg v =
      let o =
        (check upper s.risk (order_of upper b signal s.next_id) s.portfolio event.open_price).1 in
      elim (Bool-cases (is_hold signal.direction)) [
        | inl held ↦ rw held v
        | inr acts ↦ elim (Bool-cases (is_submitted o.status)) [
          | inl sent ↦
              rw (acts, sent)
                (route-IsRun b event o _ nonneg (submitted-is_open o.status sent)
                  (record { numbered = (refl, v.numbered); pending = v.pending }))
          | inr refused ↦
              rw (acts, refused) (record { numbered = (refl, v.numbered); pending = v.pending })
        ]
      ]

  -- A run that goes on after another one.
  continued-IsRun :
      (n m : ℕ) (x : Result ExecutionError (Replay F))
      (rest : Replay F → Result ExecutionError (Replay F))
      → IsRun upper n x
      → ((t : Replay F) → IsSound upper n t → IsRun upper m (rest t))
      → IsRun upper m (x >>= rest)
  continued-IsRun n m (ok t) rest w h = h t w
  continued-IsRun n m (err e) rest w h = w

  open_bar-IsRun :
      (b : PaperBroker F) (event : MarketEvent F) (m : ℕ) (s : Replay F)
      → IsSound upper m s
      → IsRun upper event.sequence (open_bar upper b event s)
  unfolding open_bar record_event
  open_bar-IsRun b event m s v =
      fill_due-IsRun upper laws b event _ [] _
        (All-keep _ _ s.pending_orders (All-map_of _ _ (λ i h. h.1) s.pending_orders v.pending))
        (record {
          numbered = (refl, v.numbered);
          pending = kept-All upper m event.sequence s.pending_orders v.pending;
        })

  close_bar-IsSound :
      (b : PaperBroker F) (event : MarketEvent F) (s : Replay F)
      → IsSound upper event.sequence s
      → IsSound upper event.sequence (close_bar upper b event s)
  unfolding close_bar record_event
  close_bar-IsSound b event s v = record { numbered = (refl, v.numbered); pending = v.pending }

  trade-IsRun :
      (b : PaperBroker F) (event : MarketEvent F) (s : Replay F)
      → ltb_ℤ b.execution_config.latency_bars (pos 0) ≡ false
      → IsSound upper event.sequence s
      → IsRun upper event.sequence (trade upper b event s)
  unfolding trade note_signal record_event
  trade-IsRun b event s nonneg v =
      let noted : IsSound upper event.sequence (note_signal upper b event s) = record {
        numbered = (refl, v.numbered);
        pending = v.pending;
      } in
      let signal = on_market upper s.strategy event (note_signal upper b event s).portfolio in
      continued-IsRun event.sequence event.sequence _ _ (place-IsRun b event signal _ nonneg noted)
        (λ u w. close_bar-IsSound b event u w)

  -- A bar that starts from numbered events and open pending orders, with a latency that is not
  -- negative: the broker never gets an order that is not open, and where no narrowed configuration is
  -- refused, the events are numbered without a gap and every pending order is open and due after
  -- the bar.
  pub replay_event-IsRun :
      (b : PaperBroker F) (event : MarketEvent F) (m : ℕ) (s : Replay F)
      → ltb_ℤ b.execution_config.latency_bars (pos 0) ≡ false
      → IsSound upper m s
      → IsRun upper event.sequence (replay_event upper b event s)
  unfolding replay_event
  replay_event-IsRun b event m s nonneg v =
      continued-IsRun event.sequence event.sequence (open_bar upper b event s) (trade upper b event)
        (open_bar-IsRun b event m s v) (λ t w. trade-IsRun b event t nonneg w)

  abbrev pub last_sequence : ℕ → List (MarketEvent F) → ℕ
  last_sequence n [] = n
  last_sequence n (e ∷ es) = last_sequence e.sequence es

  -- For ordered numbers and a latency that is not negative, a replay from a state with numbered
  -- trace events and open pending orders either raises an error of a configuration or ends with
  -- its trace numbered from 1 without a gap and every pending order open and due after the last
  -- bar: the broker is never given an order that is not open.
  pub replay-IsRun :
      (b : PaperBroker F) (es : List (MarketEvent F)) (n : ℕ) (s : Replay F)
      → ltb_ℤ b.execution_config.latency_bars (pos 0) ≡ false
      → IsSound upper n s
      → IsRun upper (last_sequence n es) (replay upper b es s)
  unfolding replay
  replay-IsRun b [] n s nonneg v = v
  replay-IsRun b (e ∷ es) n s nonneg v =
      continued-IsRun e.sequence (last_sequence n (e ∷ es)) (replay_event upper b e s)
        (replay upper b es) (replay_event-IsRun b e n s nonneg v)
        (λ t w. replay-IsRun b es e.sequence t nonneg w)

module _ {F : Type 0} ⦃num : Number F⦄ (upper : String → String) where
  -- Replaying bars and then further bars is replaying all of them: what a replay does in the first
  -- bars does not depend on the later ones.
  pub replay-append :
      (b : PaperBroker F) (es fs : List (MarketEvent F)) (s : Replay F)
      → replay upper b (es ++ fs) s ≡ (replay upper b es s >>= replay upper b fs)
  unfolding replay
  replay-append b [] fs s = refl
  replay-append b (e ∷ es) fs s = elim (Result-cases (replay_event upper b e s)) [
    | inl (t, done) ↦ rw done (replay-append b es fs t)
    | inr (x, raised) ↦ rw raised refl
  ]
