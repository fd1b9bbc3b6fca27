-- ===== src/StrategyHealth/Operations.antt =====
-- Sequences of the service's operations (app/strategy_health/service.py), and the tables that they leave.
use mercury_trading.Base.{
  Bool, false, Option, none, some, List, [], ◌∷◌, any, String, ◌≡◌, Bool-cases, inl, inr,
}
use mercury_trading.Base.Session.{◌>>=◌}
use mercury_trading.StrategyHealth.Rows.{same_deduplication, day_of, matching}
use mercury_trading.Base.Keeps.{
  Keeps, Keeps-pure, Keeps-gets, Keeps-lift, Keeps-if, Keeps-modify, Keeps-bind,
}
use mercury_trading.PaperTrading.Number.{Number}
use mercury_trading.StrategyHealth.Assessment.{HealthState, Rounding}
use mercury_trading.StrategyHealth.Model.{
  Uuid, Instant, ResearchSchedule, DeduplicationKey, ResearchTrigger, HealthStore,
  HealthObservationRequest,
}
use mercury_trading.StrategyHealth.Service.{transition, record_observation}
use mercury_trading.StrategyHealth.Research.{
  Campaigning, start_research, trigger_once, create_trigger, keep_trigger, run_schedules,
  run_due_schedules, create_schedule,
}

pub data HealthOperation (F T : Type 0) : Type 0 where
  observe : Instant → Uuid → HealthObservationRequest F → HealthOperation F T
  move : Uuid → HealthState → Bool → HealthOperation F T
  trigger : Instant → Option Uuid → String → Option (ResearchSchedule T) → HealthOperation F T
  run_due : Instant → Option Instant → HealthOperation F T
  schedule : ResearchSchedule T → HealthOperation F T

module _ {F T : Type 0} ⦃num : Number F⦄ (rounding : Rounding F) (campaigning : Campaigning T) where
  -- The tables after an operation, whether it returned or raised.
  abbrev pub perform : HealthOperation F T → HealthStore F T → HealthStore F T
  perform (observe clock i request) s =
      (record_observation rounding campaigning clock i request s).1
  perform (move i target has_reason) s = (transition i target has_reason s).1
  perform (trigger clock i t chosen) s = (create_trigger campaigning clock i t chosen s).1
  perform (run_due clock now) s = (run_due_schedules campaigning clock now s).1
  perform (schedule payload) s = (create_schedule campaigning payload s).1

  abbrev pub perform_all : List (HealthOperation F T) → HealthStore F T → HealthStore F T
  perform_all [] s = s
  perform_all (o ∷ os) s = perform_all os (perform o s)

-- A predicate that starting research keeps, where the key is new, is kept by every way to a trigger.
module _ {F T : Type 0} (campaigning : Campaigning T) (P : HealthStore F T → Type 0)
    (starts : (i : Option Uuid) (t : String) (key : DeduplicationKey) (chosen : ResearchSchedule T)
        (s : HealthStore F T)
      → any (λ t. same_deduplication t.deduplication_key key) s.triggers ≡ false
      → P s
      → P (start_research campaigning i t key chosen s).1)
    (runs : (s : HealthStore F T) (ss : List (ResearchSchedule T))
      → P s
      → P (record s { schedules = ss })) where
  trigger_once-Keeps :
      (clock : Instant) (i : Option Uuid) (t : String) (o : Option (ResearchSchedule T))
      → Keeps P (trigger_once campaigning clock i t o)
  unfolding trigger_once ◌>>=◌
  trigger_once-Keeps clock i t none = Keeps-pure P none
  trigger_once-Keeps clock i t (some chosen) = record {
    keep = λ s p.
        let key : DeduplicationKey = record {
          schedule_id = chosen.id;
          key_type = t;
          day = day_of clock;
        } in
        elim (Bool-cases (any (λ t. same_deduplication t.deduplication_key key) s.triggers)) [
          | inl e ↦ rw e p
          | inr e ↦ rw e (starts i t key chosen s e p)
        ];
  }

  pub create_trigger-Keeps :
      (clock : Instant) (i : Option Uuid) (t : String) (o : Option (ResearchSchedule T))
      → Keeps P (create_trigger campaigning clock i t o)
  unfolding create_trigger
  create_trigger-Keeps clock i t o =
      Keeps-bind P _ _ (Keeps-gets P _) λ found. trigger_once-Keeps clock i t (matching o found)

  keep_trigger-Keeps :
      (now : Instant) (i : Uuid) (o : Option ResearchTrigger)
      → Keeps P (keep_trigger campaigning now i o)
  unfolding keep_trigger
  keep_trigger-Keeps now i none = Keeps-pure P []
  keep_trigger-Keeps now i (some t) =
      Keeps-bind P _ _ (Keeps-modify P _ (λ s p. runs s _ p)) λ _. Keeps-pure P _

  run_schedules-Keeps :
      (clock now : Instant) (ss : List (ResearchSchedule T))
      → Keeps P (run_schedules campaigning clock now ss)
  unfolding run_schedules
  run_schedules-Keeps clock now [] = Keeps-pure P []
  run_schedules-Keeps clock now (s ∷ ss) =
      Keeps-bind P _ _
        (Keeps-if P _ _ _
          (Keeps-bind P _ _ (create_trigger-Keeps clock s.strategy_id "PERIODIC_REVIEW" (some s))
            (keep_trigger-Keeps now s.id))
          (Keeps-pure P _))
        λ first. Keeps-bind P _ _ (run_schedules-Keeps clock now ss) λ rest. Keeps-pure P _

  pub run_due_schedules-Keeps :
      (clock : Instant) (now : Option Instant) → Keeps P (run_due_schedules campaigning clock now)
  unfolding run_due_schedules
  run_due_schedules-Keeps clock none =
      Keeps-bind P _ _ (Keeps-gets P _) λ ss. run_schedules-Keeps clock clock ss
  run_due_schedules-Keeps clock (some now) =
      Keeps-bind P _ _ (Keeps-gets P _) λ ss. run_schedules-Keeps clock now ss

  pub create_schedule-Keeps :
      (payload : ResearchSchedule T) → Keeps P (create_schedule campaigning payload)
  unfolding create_schedule
  create_schedule-Keeps payload =
      Keeps-bind P _ _ (Keeps-lift P _)
        λ template. Keeps-bind P _ _ (Keeps-modify P _ (λ s p. runs s _ p)) λ _. Keeps-pure P _
