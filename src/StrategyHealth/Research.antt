-- ===== src/StrategyHealth/Research.antt =====
-- Research triggers and schedules of `StrategyHealthService` (app/strategy_health/service.py). The creation of
-- a campaign from a template and the validation of a template belong to the campaign service and are
-- parameters; `clock` is what the methods read as the time.
use mercury_trading.Base.{
  ◌==◌, true, ◌&&◌, Option, none, some, List, [], ◌∷◌, ◌++◌, any, String, if◌then◌else◌, Result,
}
use mercury_trading.Base.Session.{Method, pure, gets, lift, modify, ◌>>=◌, ◌>>◌}
use mercury_trading.StrategyHealth.Model.{
  Uuid, Instant, ResearchSchedule, DeduplicationKey, TriggerStatus, ResearchTrigger, HealthOutcome,
  HealthDecision, HealthStore,
}
use mercury_trading.StrategyHealth.Rows.{
  same_deduplication, day_of, next_id, periodic_due, event_schedule, matching,
}

-- What the methods take from the campaign service.
pub record Campaigning (T : Type 0) : Type 0 where
  pub model_validate : T → Result String T
  pub create_campaign : T → Result String Uuid

abbrev pub HealthMethod : Type 0 → Type 0 → Type 0 → Type 0
HealthMethod F T A = Method (HealthStore F T) String A

-- The trigger's campaign and its new status.
unfoldable pub link_campaign : Uuid → Uuid → List ResearchTrigger → List ResearchTrigger
link_campaign i campaign [] = []
link_campaign i campaign (t ∷ ts) =
    (if t.id == i
      then record t { campaign_id = some campaign; status = TriggerStatus.campaign_created }
      else t)
    ∷ link_campaign i campaign ts

unfoldable pub set_last_run :
    {T : Type 0} → Uuid → Instant → List (ResearchSchedule T) → List (ResearchSchedule T)
set_last_run i now [] = []
set_last_run i now (s ∷ ss) =
    (if s.id == i then record s { last_run_at = some now } else s) ∷ set_last_run i now ss

module _ {F T : Type 0} where
  unfoldable pub record_health_decision : HealthDecision → HealthStore F T → HealthStore F T
  record_health_decision d s = record s { decisions = s.decisions ++ (d ∷ []) }

  unfoldable pub add_trigger : ResearchTrigger → HealthStore F T → HealthStore F T
  add_trigger t s = record s { triggers = s.triggers ++ (t ∷ []) }

  module _ (campaigning : Campaigning T) where
    -- `create_trigger` once its key is known not to exist.
    unfoldable pub start_research :
        Option Uuid
        → String
        → DeduplicationKey
        → ResearchSchedule T
        → HealthMethod F T (Option ResearchTrigger)
    unfolding record_health_decision add_trigger link_campaign
    start_research strategy_id trigger_type key schedule = do
      i ← gets λ s. next_id s.triggers
      let trigger : ResearchTrigger = record {
        id = i;
        strategy_id = strategy_id;
        trigger_type = trigger_type;
        deduplication_key = key;
        campaign_id = none;
        status = TriggerStatus.pending;
      }
      modify (add_trigger trigger)
      template ← lift (campaigning.model_validate schedule.campaign_template)
      campaign ← lift (campaigning.create_campaign template)
      modify λ s. record s { triggers = link_campaign i campaign s.triggers }
      modify (
          record_health_decision record {
            decision_type = "RESEARCH_TRIGGERED";
            outcome = HealthOutcome.campaign_created;
            strategy_id = strategy_id;
            rules = [];
          })
      pure (
          some (record trigger {
            campaign_id = some campaign;
            status = TriggerStatus.campaign_created;
          }))

    unfoldable pub trigger_once :
        Instant
        → Option Uuid
        → String
        → Option (ResearchSchedule T)
        → HealthMethod F T (Option ResearchTrigger)
    unfolding start_research
    trigger_once clock strategy_id trigger_type none = pure none
    trigger_once clock strategy_id trigger_type (some schedule) = do
      let key : DeduplicationKey = record {
        schedule_id = schedule.id;
        key_type = trigger_type;
        day = day_of clock;
      }
      exists ← gets λ s. any (λ t. same_deduplication t.deduplication_key key) s.triggers
      if exists then pure none else start_research strategy_id trigger_type key schedule

    unfoldable pub create_trigger :
        Instant
        → Option Uuid
        → String
        → Option (ResearchSchedule T)
        → HealthMethod F T (Option ResearchTrigger)
    unfolding trigger_once event_schedule
    create_trigger clock strategy_id trigger_type schedule = do
      found ← gets λ s. event_schedule strategy_id trigger_type s.schedules
      trigger_once clock strategy_id trigger_type (matching schedule found)

    unfoldable pub keep_trigger :
        Instant → Uuid → Option ResearchTrigger → HealthMethod F T (List ResearchTrigger)
    unfolding set_last_run
    keep_trigger now i none = pure []
    keep_trigger now i (some t) = do
      modify λ s. record s { schedules = set_last_run i now s.schedules }
      pure (t ∷ [])

    -- The loop of `run_due_schedules` over the active schedules.
    unfoldable pub run_schedules :
        Instant → Instant → List (ResearchSchedule T) → HealthMethod F T (List ResearchTrigger)
    unfolding create_trigger periodic_due
    run_schedules clock now [] = pure []
    run_schedules clock now (s ∷ ss) = do
      first ←
          if s.is_active && periodic_due now s
          then (do
            trigger ← create_trigger clock s.strategy_id "PERIODIC_REVIEW" (some s)
            keep_trigger now s.id trigger)
          else pure []
      rest ← run_schedules clock now ss
      pure (first ++ rest)

    unfoldable pub run_due_schedules :
        Instant → Option Instant → HealthMethod F T (List ResearchTrigger)
    unfolding run_schedules
    run_due_schedules clock none = do
      schedules ← gets λ s. s.schedules
      run_schedules clock clock schedules
    run_due_schedules clock (some now) = do
      schedules ← gets λ s. s.schedules
      run_schedules clock now schedules

    unfoldable pub create_schedule : ResearchSchedule T → HealthMethod F T (ResearchSchedule T)
    create_schedule payload = do
      template ← lift (campaigning.model_validate payload.campaign_template)
      let schedule : ResearchSchedule T = record payload {
        campaign_template = template;
        is_active = true;
        last_run_at = none;
      }
      modify λ s. record s { schedules = s.schedules ++ (schedule ∷ []) }
      pure schedule
