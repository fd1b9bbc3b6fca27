-- ===== src/StrategyHealth/Retirement.antt =====
-- A retired strategy stays as it is (app/strategy_health/service.py).
use mercury_trading.Base.{
  ℕ, ◌≡◌, refl, ap, ◌∙◌, Bool, false, Option, none, some, List, [], ◌∷◌, any, arith, String, ok,
  ok-injective,
}
use mercury_trading.Base.Session.{◌>>=◌, or_error}
use mercury_trading.Base.Keeps.{
  Keeps, Keeps-pure, Keeps-gets, Keeps-lift, Keeps-if, Keeps-modify, Keeps-bind, after_guard,
  after_gets, after_call, after_modify,
}
use mercury_trading.PaperTrading.Number.{Number}
use mercury_trading.StrategyHealth.Assessment.{
  HealthState, HealthAssessment, Rounding, assess_health,
}
use mercury_trading.StrategyHealth.Model.{
  Uuid, Instant, StrategyHealth, ResearchSchedule, DeduplicationKey, HealthStore,
  HealthObservationRequest,
}
use mercury_trading.StrategyHealth.Rows.{
  is_retired, target_lifecycle, update_health, observations_of, prior_degraded, same_deduplication,
}
use mercury_trading.StrategyHealth.Service.{
  transition, record_observation, require_health, note_observation,
}
use mercury_trading.StrategyHealth.Research.{Campaigning, start_research, record_health_decision}
use mercury_trading.StrategyHealth.Operations.{
  HealthOperation, observe, move, trigger, run_due, schedule, perform, perform_all,
  create_trigger-Keeps, run_due_schedules-Keeps, create_schedule-Keeps,
}
use mercury_trading.StrategyHealth.Consistency.{
  row_of, IsRetired, update_health-row, update_health-IsConsistent, target-IsConsistent,
  state_of-not_retired, observed-IsConsistent, other_row, store_health-IsRetired,
}

require_health-reads :
    {F T : Type 0} (i : Uuid) (s : HealthStore F T)
    → require_health i s ≡ (or_error "strategy health not found" (row_of i s.healths), s)
unfolding require_health ◌>>=◌
require_health-reads i s = refl

or_error-ok : {E A : Type 0} (e : E) (o : Option A) (a : A) → or_error e o ≡ ok a → o ≡ some a
or_error-ok e none a h = absurd (ground arith)
or_error-ok e (some b) a h = ap some (ok-injective h)

assess_health-not_retired :
    {F : Type 0} ⦃num : Number F⦄ (rounding : Rounding F) (m x : List (String × F)) (weak : Bool)
    (c : List (String × F)) (n : ℕ)
    → is_retired (assess_health rounding m x weak c n).state ≡ false
unfolding assess_health
assess_health-not_retired rounding m x weak c n =
    state_of-not_retired _ weak (assess_health rounding m x weak c n).flags n

module _ {F T : Type 0} (j : Uuid) (h : StrategyHealth F) where
  abbrev Stays : HealthStore F T → Type 0
  Stays s = IsRetired j h s.healths

  module _ (campaigning : Campaigning T) where
    start_research-Stays :
        (i : Option Uuid) (t : String) (key : DeduplicationKey) (chosen : ResearchSchedule T)
        → Keeps Stays (start_research campaigning i t key chosen)
    unfolding start_research
    start_research-Stays i t key chosen = Keeps-bind Stays _ _ (Keeps-gets Stays _) λ n.
        Keeps-bind Stays _ _ (Keeps-modify Stays _ (λ s q. q)) λ _.
          Keeps-bind Stays _ _ (Keeps-lift Stays _) λ template.
            Keeps-bind Stays _ _ (Keeps-lift Stays _) λ campaign.
              Keeps-bind Stays _ _ (Keeps-modify Stays _ (λ s q. q))
                λ _. Keeps-bind Stays _ _ (Keeps-modify Stays _ (λ s q. q)) λ _. Keeps-pure Stays _

    starts_Stays :
        (i : Option Uuid) (t : String) (key : DeduplicationKey) (chosen : ResearchSchedule T)
        (s : HealthStore F T)
        → any (λ t. same_deduplication t.deduplication_key key) s.triggers ≡ false
        → Stays s
        → Stays (start_research campaigning i t key chosen s).1
    starts_Stays i t key chosen s e p = (start_research-Stays i t key chosen).keep s p

    transition_writes :
        (i : Uuid) (target : HealthState) (s : HealthStore F T) (row : StrategyHealth F)
        → row_of i s.healths ≡ some row
        → is_retired row.state ≡ false
        → Stays s
        → IsRetired j h (
            update_health i
              (λ r. record r { state = target; lifecycle_state = target_lifecycle target })
              s.healths)
    transition_writes i target s row found writable p =
        let ne = other_row i j s.healths h row p found writable in
        record {
          consistent =
              update_health-IsConsistent i _ s.healths (λ r. target-IsConsistent target)
                p.consistent;
          row = update_health-row i j _ s.healths ne (λ r at. at) ∙ p.row;
          retired = p.retired;
        }

    transition-Stays :
        (i : Uuid) (target : HealthState) (has_reason : Bool)
        → Keeps Stays (transition {T = T} i target has_reason)
    unfolding transition record_health_decision
    transition-Stays i target has_reason = record {
      keep = λ s p.
          after_call Stays _ _ s (or_error "strategy health not found" (row_of i s.healths))
            (require_health-reads i s) p
            λ row found. after_guard Stays _ _ _ s p λ writable. after_modify Stays _ _ s (
              after_modify Stays _ _ _ (
                (Keeps-pure Stays _).keep _
                  (transition_writes i target s row (or_error-ok _ _ _ found) writable p)));
    }

    module _ ⦃num : Number F⦄ (rounding : Rounding F) where
      note_observation-Stays :
          (clock : Instant) (request : HealthObservationRequest F) (a : HealthAssessment F)
          (o : Option (StrategyHealth F)) (new : StrategyHealth F)
          → Keeps Stays (note_observation rounding campaigning clock request a o new)
      unfolding note_observation
      note_observation-Stays clock request a o new =
          Keeps-bind Stays _ _ (Keeps-modify Stays _ (λ s q. q)) λ _.
            Keeps-bind Stays _ _
              (Keeps-if Stays _ _ _ (Keeps-modify Stays _ (λ s q. q)) (Keeps-pure Stays tt))
              λ _.
                Keeps-bind Stays _ _
                  (Keeps-if Stays _ _ _
                    (create_trigger-Keeps campaigning Stays starts_Stays (λ s ss p. p) clock _ _
                      none)
                    (Keeps-pure Stays none))
                  λ trigger. Keeps-pure Stays new

      record_observation-Stays :
          (clock : Instant) (i : Uuid) (request : HealthObservationRequest F)
          → Keeps Stays (record_observation rounding campaigning clock i request)
      unfolding record_observation
      record_observation-Stays clock i request = record {
        keep = λ s p.
            let a =
              assess_health rounding request.metrics request.expected_metrics
                request.expected_weakness request.execution_context
                (prior_degraded (observations_of i s.observations)) in
            after_gets Stays _ _ s (
              after_gets Stays _ _ s (
                after_guard Stays _ _ _ s p λ writable. after_modify Stays _ _ s (
                  (note_observation-Stays clock request a (row_of i s.healths) _).keep _ (
                    store_health-IsRetired i j s.healths h _ (row_of i s.healths) refl
                      (observed-IsConsistent _ _
                        (assess_health-not_retired rounding request.metrics request.expected_metrics
                          request.expected_weakness request.execution_context _)
                        writable)
                      refl writable p))));
      }

      perform-Stays :
          (o : HealthOperation F T) (s : HealthStore F T)
          → Stays s
          → Stays (perform rounding campaigning o s)
      perform-Stays (observe clock i request) s p =
          (record_observation-Stays clock i request).keep s p
      perform-Stays (move i target has_reason) s p = (transition-Stays i target has_reason).keep s p
      perform-Stays (trigger clock i t o) s p =
          (create_trigger-Keeps campaigning Stays starts_Stays (λ s ss p. p) clock i t o).keep s p
      perform-Stays (run_due clock now) s p =
          (run_due_schedules-Keeps campaigning Stays starts_Stays (λ s ss p. p) clock now).keep s p
      perform-Stays (schedule payload) s p =
          (create_schedule-Keeps campaigning Stays starts_Stays (λ s ss p. p) payload).keep s p

      -- Where all rows agree on retirement between state and life cycle, the row of a retired
      -- strategy is the same after any sequence of observations, transitions, triggers, due
      -- reviews and new schedules, of this strategy or of others, whether they return or raise;
      -- and the rows still agree.
      pub perform_all-IsRetired :
          (os : List (HealthOperation F T)) (s : HealthStore F T)
          → IsRetired j h s.healths
          → IsRetired j h (perform_all rounding campaigning os s).healths
      perform_all-IsRetired [] s p = p
      perform_all-IsRetired (o ∷ os) s p = perform_all-IsRetired os _ (perform-Stays o s p)
