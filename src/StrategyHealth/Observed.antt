-- ===== src/StrategyHealth/Observed.antt =====
-- When an observation of a strategy leads to the state DEGRADED: `record_observation`
-- (app/strategy_health/service.py).
use mathlib.Core.List.{Memᴰ}
use mercury_trading.Base.{
  ◌≤◌, ◌≡◌, ◌↔◌, refl, sym, ap, ◌∙◌, Bool, true, Option, List, [], ◌∷◌, keep, find, ◌==◌, length,
  arith, ok, subst, Bool-cases, inl, inr,
}
use mercury_trading.Base.Session.{◌>>=◌, Gives, Gives-bind, Gives-pure}
use mercury_trading.PaperTrading.Number.{Number}
use mercury_trading.StrategyHealth.Assessment.{
  HealthState, HealthAssessment, Rounding, components_of, sufficient, assess_health,
}
use mercury_trading.StrategyHealth.Model.{
  Uuid, Instant, StrategyHealth, StrategyHealthObservation, HealthStore, HealthObservationRequest,
}
use mercury_trading.StrategyHealth.Rows.{
  is_retire, observed_lifecycle, observations_of, last_two, degradations, prior_degraded,
}
use mercury_trading.StrategyHealth.Research.{Campaigning}
use mercury_trading.StrategyHealth.Service.{
  lifecycle_of, store_health, note_observation, record_observation,
}
use mercury_trading.StrategyHealth.Degradation.{weak_measures, assess_health-degraded_iff}

module _ {A : Type 0} (p : A → Bool) where
  -- Something is kept of a list exactly if an element of it passes.
  kept_some : (xs : List A) → 1 ≤ length (keep p xs) → (x : A) × Memᴰ x xs × (p x ≡ true)
  kept_some [] h = absurd (ground arith)
  kept_some (x ∷ xs) h = elim (Bool-cases (p x)) [
    | inl at ↦ (x, Memᴰ.head refl, at)
    | inr off ↦ let (y, m, e) = kept_some xs (rw off at h) in (y, Memᴰ.tail m, e)
  ]

  some_kept : (x : A) (xs : List A) → Memᴰ x xs → p x ≡ true → 1 ≤ length (keep p xs)
  some_kept x [] m e = elim m [ ]
  some_kept x (y ∷ ys) (Memᴰ.head same) e =
      let at : p y ≡ true = subst (λ z. p z ≡ true) same e in rw at (omega arith)
  some_kept x (y ∷ ys) (Memᴰ.tail m) e =
      let rest = some_kept x ys m e in
      elim (Bool-cases (p y)) [ inl at ↦ rw at (omega arith) | inr off ↦ rw off rest ]

module _ {F T : Type 0} where
  -- One of the last two observations of the strategy, in the order of their times, has two flags of degradation.
  abbrev pub WasDegraded : Uuid → HealthStore F T → Type 0
  WasDegraded i s =
      (o : StrategyHealthObservation F) × Memᴰ o (last_two (observations_of i s.observations))
      × (2 ≤ degradations o.flags)

module _ {F T : Type 0} ⦃num : Number F⦄ (rounding : Rounding F) (campaigning : Campaigning T) where
  note_observation-Gives :
      (clock : Instant) (request : HealthObservationRequest F) (a : HealthAssessment F)
      (health : Option (StrategyHealth F)) (new : StrategyHealth F)
      → Gives (note_observation rounding campaigning clock request a health new) new
  unfolding note_observation
  note_observation-Gives clock request a health new =
      Gives-bind _ _ new λ _. Gives-bind _ _ new λ _. Gives-bind _ _ new λ _. Gives-pure new

  prior_degraded-some :
      (os : List (StrategyHealthObservation F))
      → (1 ≤ prior_degraded os)
        ↔ ((o : StrategyHealthObservation F) × Memᴰ o (last_two os) × (2 ≤ degradations o.flags))
  unfolding prior_degraded
  prior_degraded-some os = (
    (λ h. let (o, m, e) = kept_some _ (last_two os) h in (o, m, ground arith)),
    (λ (o, m, e). some_kept _ o (last_two os) m (ground arith)),
  )

  -- An observation that returns leaves the state degraded exactly if its sample is sufficient, at
  -- least two of return, Sharpe ratio, drawdown and turnover are below their thresholds, and one
  -- of the last two earlier observations of the strategy, in the order of their times, has two
  -- flags of degradation, whatever regime weakness is expected.
  pub record_observation-degraded_iff :
      (clock : Instant) (i : Uuid) (request : HealthObservationRequest F) (s : HealthStore F T)
      {h : StrategyHealth F}
      → (record_observation rounding campaigning clock i request s).0 ≡ ok h
      → (h.state ≡ HealthState.degraded) ↔ (
          (sufficient rounding request.metrics ≡ true)
          × (2
              ≤ weak_measures (
                  components_of rounding request.metrics request.expected_metrics
                    request.execution_context))
          × WasDegraded i s)
  unfolding record_observation ◌>>=◌
  record_observation-degraded_iff clock i request s {h} e =
      let prior = observations_of i s.observations in
      let a =
        assess_health rounding request.metrics request.expected_metrics request.expected_weakness
          request.execution_context (prior_degraded prior) in
      let health = find (λ x. x.strategy_id == i) s.healths in
      let new : StrategyHealth F = record {
        strategy_id = i;
        state = a.state;
        lifecycle_state = observed_lifecycle a.state (lifecycle_of health);
        latest_score = a.score;
        latest_components = a.components;
        active_flags = a.flags;
        last_evaluated_at = request.observed_at;
      } in
      let stored : HealthStore F T = record s { healths = store_health health new s.healths } in
      let same : a.state ≡ h.state =
        elim (Bool-cases (is_retire (lifecycle_of (find (λ x. x.strategy_id == i) s.healths)))) [
          | inl gone ↦ absurd (let no = rw gone at e in ground arith)
          | inr stays ↦
              ap (λ x. x.state)
                ((note_observation-Gives clock request a health new).only stored h (rw stays at e))
        ] in
      let (to, from) =
        assess_health-degraded_iff rounding request.metrics request.expected_metrics
          request.expected_weakness request.execution_context (prior_degraded prior) in
      let (some_of, of_some) = prior_degraded-some prior in
      (
        (λ d. let (enough, (weak, n)) = to (same ∙ d) in (enough, weak, some_of n)),
        (λ (enough, weak, was). sym same ∙ from (enough, (weak, of_some was))),
      )
