-- ===== src/PaperTrading/Replay/Sound.antt =====
-- What the loop of the replay keeps (app/paper_trading/service.py).
use mercury_trading.Base.{
  ℕ, zero, suc, ◌≡◌, ◌<◌, refl, Bool, true, false, List, [], ◌∷◌, keep, ltb, String, Result, ok,
  err, ◌>>=◌, ◌>>◌, raise_if, All, All-append, Bool-cases, inl, inr, arith,
}
use mercury_trading.Base.Int.{ℤ, pos, negsuc, ltb_ℤ}
use mercury_trading.PaperTrading.Number.{Number, nought, IsOrdered}
use mercury_trading.PaperTrading.Events.{EventType, MarketEvent, OrderEvent, OrderStatus, FillEvent}
use mercury_trading.PaperTrading.Portfolio.Defs.{lookup}
use mercury_trading.PaperTrading.Execution.Defs.{
  ExecutionResult, ExecutionError, negative_cost, bad_participation, negative_latency,
  validate_config, is_open,
}
use mercury_trading.PaperTrading.Execution.Broker.{PaperBroker, broker_execute}
use mercury_trading.PaperTrading.Execution.Fills.{IsOutcome, broker_execute-IsOutcome}
use mercury_trading.PaperTrading.Replay.Defs.{
  Replay, is_partial, is_microstructure, is_submitted, is_zero_ℤ, later, or_else, record_event,
  persist_order, book_fill, book_fills, queue, book_result,
}
use mercury_trading.PaperTrading.Replay.Loop.{narrowed, fill_due}

-- The rows of a trace, the latest first, are numbered from 1 without a gap, up to this number.
abbrev pub IsNumbered : List (ℕ × EventType) → ℕ → Type 0
IsNumbered [] n = n ≡ 0
IsNumbered (row ∷ rows) zero = ⊥
IsNumbered (row ∷ rows) (suc n) = (row.0 ≡ suc n) × IsNumbered rows n

-- The errors of `ExecutionConfig.__post_init__`.
abbrev pub is_config_error : ExecutionError → Bool
is_config_error negative_cost = true
is_config_error bad_participation = true
is_config_error negative_latency = true
is_config_error _ = false

partial-is_open : (st : OrderStatus) → is_partial st ≡ true → is_open st ≡ true
partial-is_open st h = ground arith

pub submitted-is_open : (st : OrderStatus) → is_submitted st ≡ true → is_open st ≡ true
submitted-is_open st h = ground arith

pub later-lt :
    (n : ℕ) (latency : ℤ)
    → ltb_ℤ latency (pos 0) ≡ false
    → is_zero_ℤ latency ≡ false
    → n < later n latency
later-lt n (pos k) nonneg waits = ground arith
later-lt n (negsuc k) nonneg waits = absurd (ground arith)

-- A check of a configuration passes or raises one of them.
abbrev IsCheck : Result ExecutionError (Unit {0}) → Type 0
IsCheck (ok u) = Unit
IsCheck (err e) = is_config_error e ≡ true

checks-IsCheck :
    (a b c : Bool)
    → IsCheck
        (raise_if a negative_cost >> (raise_if b bad_participation >> raise_if c negative_latency))
checks-IsCheck true b c = refl
checks-IsCheck false true c = refl
checks-IsCheck false false true = refl
checks-IsCheck false false false = tt

module _ {F : Type 0} ⦃num : Number F⦄ (upper : String → String) where
  -- A pending order is due after the bar `n`, and open.
  abbrev pub IsPending : ℕ → (ℕ × OrderEvent F) → Type 0
  IsPending n i = (n < i.0) × (is_open i.1.status ≡ true)

  pub record IsSound (n : ℕ) (s : Replay F) : Type 0 where
    pub numbered : IsNumbered s.trace s.sequence
    pub pending : All (IsPending n) s.pending_orders

  -- A run ends in a sound state, or in an error of a configuration.
  abbrev pub IsRun : ℕ → Result ExecutionError (Replay F) → Type 0
  IsRun n (ok s) = IsSound n s
  IsRun n (err e) = is_config_error e ≡ true

  pub kept-All :
      (m n : ℕ) (os : List (ℕ × OrderEvent F))
      → All (IsPending m) os
      → All (IsPending n) (keep (λ i. ltb n i.0) os)
  kept-All m n [] h = tt
  kept-All m n (o ∷ os) (first, others) = ground (arith, kept-All m n os others)

  record_event-IsSound :
      (n : ℕ) (t : EventType) (s : Replay F) → IsSound n s → IsSound n (record_event upper t s)
  unfolding record_event
  record_event-IsSound n t s v = record { numbered = (refl, v.numbered); pending = v.pending }

  pub queue-IsSound :
      (n due : ℕ) (o : OrderEvent F) (s : Replay F)
      → n < due
      → is_open o.status ≡ true
      → IsSound n s
      → IsSound n (queue upper due o s)
  unfolding queue
  queue-IsSound n due o s after open_now v = record {
    numbered = v.numbered;
    pending = All-append (IsPending n) s.pending_orders _ v.pending ((after, open_now), tt);
  }

  book_fills-IsSound :
      (n : ℕ) (fs : List (FillEvent F)) (s : Replay F)
      → IsSound n s
      → IsSound n (book_fills upper fs s)
  unfolding book_fills book_fill record_event
  book_fills-IsSound n [] s v = v
  book_fills-IsSound n (f ∷ fs) s v =
      book_fills-IsSound n fs (book_fill upper f s)
        (record { numbered = (refl, v.numbered); pending = v.pending })

  pub book_result-IsSound :
      (n : ℕ) (r : ExecutionResult F) (s : Replay F)
      → IsSound n s
      → IsSound n (book_result upper n r s)
  unfolding book_result persist_order
  book_result-IsSound n r s v =
      let booked =
        book_fills-IsSound n r.fills (persist_order upper r.order s)
          (record { numbered = v.numbered; pending = v.pending }) in
      elim (Bool-cases (is_partial r.order.status)) [
        | inl partial ↦ rw partial (
            queue-IsSound n (suc n) r.order _ (omega arith) (partial-is_open r.order.status partial)
              (record { numbered = booked.numbered; pending = booked.pending }))
        | inr whole ↦ rw whole booked
      ]

  -- A raise of a run, or a step of it that goes on to another one.
  module _ (laws : IsOrdered F) where
    -- The execution of an open order does not raise.
    pub executed-IsRun :
        (n : ℕ) (b : PaperBroker F) (event : MarketEvent F) (o : OrderEvent F)
        (rest : ExecutionResult F → Result ExecutionError (Replay F))
        → is_open o.status ≡ true
        → ((r : ExecutionResult F) → IsRun n (rest r))
        → IsRun n (broker_execute b o event >>= rest)
    executed-IsRun n b event o rest open_now h =
        go (broker_execute b o event) (broker_execute-IsOutcome laws b o event)
      where
        go : (x : Result ExecutionError (ExecutionResult F)) → IsOutcome o x → IsRun n (x >>= rest)
        go (ok r) out = h r
        go (err e) out = absurd (ground arith)

    -- A narrowed broker has a valid configuration, or its check raises.
    narrowed-IsRun :
        (n : ℕ) (b : PaperBroker F) (available : F) (event : MarketEvent F)
        (rest : PaperBroker F → Result ExecutionError (Replay F))
        → ((b' : PaperBroker F) → IsRun n (rest b'))
        → IsRun n (narrowed upper b available event >>= rest)
    unfolding narrowed validate_config
    narrowed-IsRun n b available event rest h = go _ _ (checks-IsCheck _ _ _)
      where
        go :
            (b' : PaperBroker F) (x : Result ExecutionError (Unit {0}))
            → IsCheck x
            → IsRun n ((x >> ok b') >>= rest)
        go b' (ok u) checked = h b'
        go b' (err e) checked = checked

    pub fill_due-IsRun :
        (b : PaperBroker F) (event : MarketEvent F) (os : List (ℕ × OrderEvent F))
        (liquidity : List (String × F)) (s : Replay F)
        → All (λ i. is_open i.1.status ≡ true) os
        → IsSound event.sequence s
        → IsRun event.sequence (fill_due upper b event os liquidity s)
    unfolding fill_due
    fill_due-IsRun b event [] liquidity s open_orders v = v
    fill_due-IsRun b event ((due, o) ∷ os) liquidity s (open_now, open_later) v =
        let n = event.sequence in
        let available =
          or_else upper (lookup (upper o.symbol) liquidity)
            (num.mul (num.of_nat event.volume) b.execution_config.max_participation_rate) in
        elim (Bool-cases (is_microstructure b.execution_config.model)) [
          | inl micro ↦ elim (Bool-cases (num.le available nought)) [
            | inl dry ↦
                rw (micro, dry)
                  (fill_due-IsRun b event os _ _ open_later
                    (queue-IsSound n (suc n) o s (omega arith) open_now v))
            | inr wet ↦
                rw (micro, wet)
                  (narrowed-IsRun n b available event _ λ b'.
                    executed-IsRun n b' event o _ open_now
                      λ r. fill_due-IsRun b event os _ _ open_later (book_result-IsSound n r s v))
          ]
          | inr other ↦ rw other (
              executed-IsRun n b event o _ open_now
                λ r. fill_due-IsRun b event os _ _ open_later (book_result-IsSound n r s v))
        ]
