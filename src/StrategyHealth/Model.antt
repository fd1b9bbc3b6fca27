-- ===== src/StrategyHealth/Model.antt =====
-- The rows of app/models/strategy_health.py and the decisions that the service records. Columns that nothing
-- reads back (the evidence, the contexts, the texts) are left out.
use mercury_trading.Base.{ℕ, Bool, Option, List, String}
use mercury_trading.StrategyHealth.Assessment.{HealthState, HealthFlag, Components, Rule}

-- A UUID is a number, an instant is in seconds and a day is its number.
abbrev pub Uuid : Type 0
Uuid = ℕ

abbrev pub Instant : Type 0
Instant = ℕ

pub data LifecycleState : Type 0 where
  researched validated promoted active monitored retain investigate de_risk retire : LifecycleState

pub data ScheduleMode : Type 0 where
  periodic event_triggered hybrid : ScheduleMode

pub record StrategyHealth (F : Type 0) : Type 0 where
  pub strategy_id : Uuid
  pub state : HealthState
  pub lifecycle_state : LifecycleState
  pub latest_score : F
  pub latest_components : Components F
  pub active_flags : List HealthFlag
  pub last_evaluated_at : Instant

pub record StrategyHealthObservation (F : Type 0) : Type 0 where
  pub strategy_id : Uuid
  pub observed_at : Instant
  pub components : Components F
  pub flags : List HealthFlag
  pub state : HealthState

-- `template` stands for the campaign template.
pub record ResearchSchedule (T : Type 0) : Type 0 where
  pub id : Uuid
  pub strategy_id : Option Uuid
  pub mode : ScheduleMode
  pub is_active : Bool
  pub cadence_days : Option ℕ
  pub campaign_template : T
  pub trigger_types : List String
  pub last_run_at : Option Instant

-- The key that makes a trigger unique: the schedule, the type and the day.
pub record DeduplicationKey : Type 0 where
  pub schedule_id : Uuid
  pub key_type : String
  pub day : ℕ

pub data TriggerStatus : Type 0 where
  pending campaign_created : TriggerStatus

pub record ResearchTrigger : Type 0 where
  pub id : Uuid
  pub strategy_id : Option Uuid
  pub trigger_type : String
  pub deduplication_key : DeduplicationKey
  pub campaign_id : Option Uuid
  pub status : TriggerStatus

pub data HealthOutcome : Type 0 where
  became : HealthState → HealthOutcome
  campaign_created : HealthOutcome

pub record HealthDecision : Type 0 where
  pub decision_type : String
  pub outcome : HealthOutcome
  pub strategy_id : Option Uuid
  pub rules : List Rule

pub record HealthStore (F T : Type 0) : Type 0 where
  pub healths : List (StrategyHealth F)
  pub observations : List (StrategyHealthObservation F)
  pub schedules : List (ResearchSchedule T)
  pub triggers : List ResearchTrigger
  pub decisions : List HealthDecision

pub record HealthObservationRequest (F : Type 0) : Type 0 where
  pub observed_at : Instant
  pub metrics : List (String × F)
  pub expected_metrics : List (String × F)
  pub expected_weakness : Bool
  pub execution_context : List (String × F)
