-- ===== src/Campaigns/Service/Model.antt =====
-- The rows that `CampaignService` reads and writes (app/models/campaign.py, app/models/governance.py),
-- as far as its state machine uses them. A UUID is a number, and an instant a number of
-- microseconds.
use mercury_trading.Base.{ℕ, Bool, Option, List, String}
use mercury_trading.Base.Int.{ℤ}
use mercury_trading.Base.Date.{Date}
use mercury_trading.Campaigns.Splits.Defs.{TemporalSplit}

abbrev pub Uuid : Type 0
Uuid = ℕ

abbrev pub Instant : Type 0
Instant = ℕ

-- `CampaignJob.status`
pub data JobStatus : Type 0 where
  queued retrying running succeeded failed cancelled : JobStatus

-- `ResearchCampaign.status`
pub data CampaignStatus : Type 0 where
  created queued running completed failed cancelled : CampaignStatus

-- `CampaignExperiment.status`
pub data ExperimentStatus : Type 0 where
  planned completed : ExperimentStatus

-- `CampaignJob.job_type`
pub data JobType : Type 0 where
  run_backtest generate_report : JobType
  unknown : String → JobType

-- The exceptions that the methods raise or catch, with their messages.
pub data Exc : Type 0 where
  connection_error timeout_error operational_error value_error runtime_error : String → Exc
  other : String → String → Exc

-- An entry of `retry_history`, with the type's name and the message kept as the exception.
pub record RetryEntry : Type 0 where
  pub attempt : ℕ
  pub recorded_at : Instant
  pub error : Exc
  pub retryable : Bool

-- `idempotency_key` is always `backtest:<id>` of the job's experiment: it is that id. `error` is the
-- pair of `error_type` and `error_message`.
pub record Job : Type 0 where
  pub id : Uuid
  pub campaign_id : Uuid
  pub campaign_experiment_id : Option Uuid
  pub experiment_id : Option Uuid
  pub job_type : JobType
  pub status : JobStatus
  pub idempotency_key : Uuid
  pub worker : Option String
  pub priority : ℤ
  pub attempt_count : ℕ
  pub max_attempts : ℕ
  pub started_at : Option Instant
  pub ended_at : Option Instant
  pub heartbeat_at : Option Instant
  pub available_at : Instant
  pub cancel_requested : Bool
  pub retry_history : List RetryEntry
  pub error : Option Exc
  pub runtime : Option ℕ
  pub created_at : Instant

-- The `constraints` that the service reads, with `none` for a missing key.
pub record Constraints : Type 0 where
  pub max_job_attempts : Option ℕ
  pub job_priority : Option ℤ
  pub require_stress_testing : Bool

-- `budget_used`, with the runtime in microseconds.
pub record BudgetUsed : Type 0 where
  pub experiments : ℕ
  pub runtime : ℕ
  pub test_evaluations : ℕ

-- An entry of `rejected_strategies`.
pub record Rejection : Type 0 where
  pub campaign_experiment_id : Uuid
  pub risk_flags : List String

pub record Campaign : Type 0 where
  pub id : Uuid
  pub constraints : Constraints
  pub start_date : Date
  pub split_definition : TemporalSplit
  pub status : CampaignStatus
  pub budget_used : BudgetUsed
  pub candidate_strategies : List Uuid
  pub rejected_strategies : List Rejection

-- `evaluation`: the stored backtests by their ids, whose metrics the source copies.
pub record Evaluation : Type 0 where
  pub train_experiment_id : Uuid
  pub validation_experiment_id : Uuid
  pub walk_forward_windows : List (Uuid × Uuid)
  pub stress_tested : Bool
  pub test_experiment_id : Option Uuid

pub record Experiment : Type 0 where
  pub id : Uuid
  pub campaign_id : Uuid
  pub experiment_id : Option Uuid
  pub long_window : ℕ
  pub status : ExperimentStatus
  pub evaluation : Option Evaluation
  pub risk_flags : List String

-- A `StrategyRanking`.
pub record Ranking : Type 0 where
  pub campaign_id : Uuid
  pub campaign_experiment_id : Uuid
  pub rank : ℕ
  pub risk_flags : List String

pub data DecisionType : Type 0 where
  campaign_queue human_override campaign_recovery campaign_finalization : DecisionType
  campaign_experiment_rejection campaign_experiment_acceptance : DecisionType

-- What `DecisionService.record` is called with: the type, the campaign, the experiment and the count
-- among its metrics.
pub record Decision : Type 0 where
  pub decision_type : DecisionType
  pub campaign_id : Uuid
  pub experiment_id : Option Uuid
  pub count : ℕ

-- The tables, each in order of creation.
pub record Store : Type 0 where
  pub campaigns : List Campaign
  pub experiments : List Experiment
  pub jobs : List Job
  pub rankings : List Ranking
  pub decisions : List Decision
