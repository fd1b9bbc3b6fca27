-- ===== src/MlLifecycle/Model.antt =====
-- The rows of app/models/ml.py that the life cycle reads and writes, and its requests.
use mercury_trading.Base.{ℕ, Bool, Option, List, String, Result}
use mercury_trading.Base.Int.{ℤ}
use mercury_trading.MlLifecycle.Drift.{DriftType}

-- UUIDs are compared only, as numbers; those of new rows are arguments of what adds them.
abbrev pub Uuid : Type 0
Uuid = ℕ

pub data ModelStatus : Type 0 where
  candidate validated champion superseded : ModelStatus

pub data RetrainingTrigger : Type 0 where
  scheduled persistent_drift new_dataset performance_degradation : RetrainingTrigger

pub record MlModel : Type 0 where
  pub id : Uuid
  pub model_key : String
  pub status : ModelStatus
  pub dataset_fingerprint : String
  pub parent_model_id : Option Uuid

pub record MlDriftObservation : Type 0 where
  pub model_id : Uuid
  pub observed_at : ℕ
  pub drift_types : List DriftType
  pub consecutive_windows : ℕ
  pub retraining_triggered : Bool

pub record MlModelPromotion : Type 0 where
  pub candidate_model_id : Uuid
  pub champion_model_id : Option Uuid
  pub promoted : Bool

pub record ModelDecision : Type 0 where
  pub decision_type : String
  pub outcome : String
  pub model_id : Uuid

pub record ModelStore : Type 0 where
  pub models : List MlModel
  pub drifts : List MlDriftObservation
  pub promotions : List MlModelPromotion
  pub decisions : List ModelDecision

pub record ExperimentDefinition : Type 0 where
  pub experiment_key : String
  pub dataset_fingerprint : String

-- The out-of-sample metrics of a model.
pub record OosMetrics (F : Type 0) : Type 0 where
  pub sample_count : ℤ
  pub ic : F
  pub rank_ic : F
  pub sharpe : F
  pub max_drawdown : F

pub record PromotionEvidence (F : Type 0) : Type 0 where
  pub candidate_oos : OosMetrics F
  pub champion_oos : Option (OosMetrics F)
  pub stress_passed : Bool
  pub regime_passed : Bool

-- Training and evaluation of an experiment, up to whether it has flags of overfitting.
pub record MlResearch : Type 0 where
  pub run : ExperimentDefinition → Result String Bool
