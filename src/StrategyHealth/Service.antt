-- ===== src/StrategyHealth/Service.antt =====
-- Observations and transitions of `StrategyHealthService` (app/strategy_health/service.py).
use mercury_trading.Base.{
  ◌==◌, Bool, true, not, Option, none, some, List, [], ◌∷◌, ◌++◌, find, if◌then◌else◌,
}
use mercury_trading.Base.Session.{pure, gets, lift, modify, raise_when, or_error, ◌>>=◌, ◌>>◌}
use mercury_trading.PaperTrading.Number.{Number}
use mercury_trading.StrategyHealth.Assessment.{
  HealthState, HealthAssessment, Rounding, assess_health, is_degraded,
}
use mercury_trading.StrategyHealth.Model.{
  Uuid, Instant, LifecycleState, StrategyHealth, StrategyHealthObservation, became,
  HealthObservationRequest,
}
use mercury_trading.StrategyHealth.Rows.{
  same_state, is_retire, is_retired, observed_lifecycle, target_lifecycle, observations_of,
  prior_degraded, update_health,
}
use mercury_trading.StrategyHealth.Research.{
  Campaigning, HealthMethod, record_health_decision, create_trigger,
}

abbrev pub lifecycle_of : {F : Type 0} → Option (StrategyHealth F) → LifecycleState
lifecycle_of none = LifecycleState.monitored
lifecycle_of (some h) = h.lifecycle_state

abbrev pub state_changed : {F : Type 0} → Option (StrategyHealth F) → HealthState → Bool
state_changed none state = true
state_changed (some h) state = not (same_state h.state state)

-- Adds or overwrites the row of the strategy.
unfoldable pub store_health :
    {F : Type 0}
    → Option (StrategyHealth F)
    → StrategyHealth F
    → List (StrategyHealth F)
    → List (StrategyHealth F)
unfolding update_health
store_health none h hs = hs ++ (h ∷ [])
store_health (some old) h hs = update_health h.strategy_id (λ row. h) hs

module _ {F T : Type 0} where
  unfoldable pub require_health : Uuid → HealthMethod F T (StrategyHealth F)
  require_health i = do
    health ← gets λ s. find (λ h. h.strategy_id == i) s.healths
    lift (or_error "strategy health not found" health)

  unfoldable pub transition : Uuid → HealthState → Bool → HealthMethod F T (StrategyHealth F)
  unfolding require_health record_health_decision update_health target_lifecycle
  transition i target has_reason = do
    health ← require_health i
    raise_when (is_retired health.state)
        "retired strategies require an explicit new strategy record"
    let change : StrategyHealth F → StrategyHealth F =
        λ h. record h { state = target; lifecycle_state = target_lifecycle target }
    modify λ s. record s { healths = update_health i change s.healths }
    modify (
        record_health_decision record {
          decision_type = "STRATEGY_LIFECYCLE_TRANSITION";
          outcome = became target;
          strategy_id = some i;
          rules = record { rule = "EXPLICIT_LIFECYCLE_DECISION"; passed = has_reason } ∷ [];
        })
    pure (change health)

  module _ ⦃num : Number F⦄ (rounding : Rounding F) (campaigning : Campaigning T) where
    -- The observation, the decision on a change of state and the trigger, once the row is stored.
    unfoldable pub note_observation :
        Instant
        → HealthObservationRequest F
        → HealthAssessment F
        → Option (StrategyHealth F)
        → StrategyHealth F
        → HealthMethod F T (StrategyHealth F)
    unfolding create_trigger record_health_decision
    note_observation clock request a health new = do
      let observation : StrategyHealthObservation F = record {
        strategy_id = new.strategy_id;
        observed_at = request.observed_at;
        components = a.components;
        flags = a.flags;
        state = a.state;
      }
      modify λ s. record s { observations = s.observations ++ (observation ∷ []) }
      if state_changed health a.state
          then modify (
              record_health_decision record {
                decision_type = "STRATEGY_HEALTH_TRANSITION";
                outcome = became a.state;
                strategy_id = some new.strategy_id;
                rules = a.rules;
              })
          else pure tt
      trigger ←
          if is_degraded a.state
          then create_trigger campaigning clock (some new.strategy_id) "STRATEGY_DEGRADED" none
          else pure none
      pure new

    unfoldable pub record_observation :
        Instant → Uuid → HealthObservationRequest F → HealthMethod F T (StrategyHealth F)
    unfolding observations_of prior_degraded note_observation observed_lifecycle store_health
    record_observation clock i request = do
      prior ← gets λ s. observations_of i s.observations
      let a : HealthAssessment F =
          assess_health rounding request.metrics request.expected_metrics request.expected_weakness
            request.execution_context (prior_degraded prior)
      health ← gets λ s. find (λ h. h.strategy_id == i) s.healths
      raise_when (is_retire (lifecycle_of health))
          "retired strategies cannot be automatically reactivated"
      let new : StrategyHealth F = record {
        strategy_id = i;
        state = a.state;
        lifecycle_state = observed_lifecycle a.state (lifecycle_of health);
        latest_score = a.score;
        latest_components = a.components;
        active_flags = a.flags;
        last_evaluated_at = request.observed_at;
      }
      modify λ s. record s { healths = store_health health new s.healths }
      note_observation clock request a health new

-- `allocation_multiplier`: 1.0, 0.9 and 0.5; 0.0 for suspended and retired.
module _ {F : Type 0} ⦃num : Number F⦄ where
  unfoldable pub allocation_multiplier : HealthState → F
  allocation_multiplier HealthState.healthy = num.of_nat 1
  allocation_multiplier HealthState.watch = num.div (num.of_nat 9) (num.of_nat 10)
  allocation_multiplier HealthState.degraded = num.div (num.of_nat 5) (num.of_nat 10)
  allocation_multiplier _ = num.of_nat 0
