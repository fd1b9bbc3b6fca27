-- ===== src/MlLifecycle/Service.antt =====
-- `MLModelLifecycleService` (app/ml_research/lifecycle.py).
use mercury_trading.Base.{
  ℕ, zero, suc, ◌==◌, Bool, true, false, ◌&&◌, ◌||◌, Option, none, some, List, [], ◌∷◌, ◌++◌, any,
  keep, length, find, leb, String, str_eq, if◌then◌else◌, Result, ok, err,
}
use mercury_trading.Base.Int.{ℤ}
use mercury_trading.Base.Session.{
  Method, pure, gets, lift, modify, raise_when, or_error, ◌>>=◌, ◌>>◌,
}
use mercury_trading.PaperTrading.Number.{Number}
use mercury_trading.MlLifecycle.Drift.{DriftType, Snapshot, DriftAssessment, assess_drift}
use mercury_trading.MlLifecycle.Model.{
  Uuid, ModelStatus, RetrainingTrigger, MlModel, MlDriftObservation, ModelDecision, ModelStore,
  ExperimentDefinition, MlResearch,
}

abbrev pub ModelMethod : Type 0 → Type 0
ModelMethod A = Method ModelStore String A

abbrev pub is_model : Uuid → MlModel → Bool
is_model i m = m.id == i

unfoldable pub require_model : Uuid → ModelMethod MlModel
require_model i = do
  model ← gets λ s. find (is_model i) s.models
  lift (or_error "ML model not found" model)

unfoldable pub record_model_decision : ModelDecision → ModelStore → ModelStore
record_model_decision d s = record s { decisions = s.decisions ++ (d ∷ []) }

-- `bool(item.drift_types)`
abbrev pub has_drift : List DriftType → Bool
has_drift [] = false
has_drift (d ∷ ds) = true

abbrev pub drifts_of : Uuid → List MlDriftObservation → List MlDriftObservation
drifts_of i = keep λ d. d.model_id == i

-- `consecutive` in `record_drift`: one more than the earlier windows with drift.
unfoldable pub consecutive_windows : Bool → List MlDriftObservation → ℕ
consecutive_windows now prior = suc (length (keep (λ d. now && has_drift d.drift_types) prior))

module _ {F : Type 0} ⦃num : Number F⦄ where
  unfoldable pub record_drift :
      Uuid
      → (observed_at window_start window_end : ℕ) (sample_count : ℤ)
        (baseline observed : Snapshot F)
      → ModelMethod MlDriftObservation
  unfolding require_model record_model_decision assess_drift consecutive_windows
  record_drift i observed_at window_start window_end sample_count baseline observed = do
    model ← require_model i
    raise_when (leb window_end window_start) "drift window start must precede end"
    let a : DriftAssessment = assess_drift baseline observed sample_count
    prior ← gets λ s. drifts_of i s.drifts
    let now : Bool = has_drift a.drift_types
    let consecutive : ℕ = consecutive_windows now prior
    let triggered : Bool = a.sufficient_evidence && (leb 2 consecutive && now)
    let row : MlDriftObservation = record {
      model_id = model.id;
      observed_at = observed_at;
      drift_types = a.drift_types;
      consecutive_windows = if now then consecutive else 0;
      retraining_triggered = triggered;
    }
    modify λ s. record s { drifts = s.drifts ++ (row ∷ []) }
    modify (
        record_model_decision record {
          decision_type = "MODEL_DRIFT_ASSESSED";
          outcome = if triggered then "RETRAINING_TRIGGERED" else "MONITORED";
          model_id = model.id;
        })
    pure row

abbrev pub is_performance_drift : DriftType → Bool
is_performance_drift DriftType.performance_drift = true
is_performance_drift _ = false

-- What each trigger of a retraining asks for, and the error when it is not there.
unfoldable pub trigger_allowed :
    RetrainingTrigger
    → ExperimentDefinition
    → MlModel
    → List MlDriftObservation
    → Result String (Unit {0})
trigger_allowed RetrainingTrigger.scheduled d parent drifts = ok tt
trigger_allowed RetrainingTrigger.persistent_drift d parent drifts =
    if any (λ o. o.retraining_triggered) drifts
    then ok tt
    else err "persistent drift retraining requires a recorded persistent drift trigger"
trigger_allowed RetrainingTrigger.new_dataset d parent drifts =
    if str_eq d.dataset_fingerprint parent.dataset_fingerprint
    then err "new dataset retraining requires a changed dataset fingerprint"
    else ok tt
trigger_allowed RetrainingTrigger.performance_degradation d parent drifts =
    if any (λ o. any is_performance_drift o.drift_types) drifts
    then ok tt
    else err "performance retraining requires a recorded performance drift observation"

-- `MLResearchService.persist`; `new` is the UUID of the row. Keys and ids are unique in their table.
unfoldable pub persist : Uuid → ExperimentDefinition → Bool → Option Uuid → ModelMethod MlModel
persist new d flagged parent = do
  models ← gets λ s. s.models
  raise_when (any (λ m. str_eq m.model_key d.experiment_key) models || any (is_model new) models)
      "IntegrityError"
  let model : MlModel = record {
    id = new;
    model_key = d.experiment_key;
    status = if flagged then ModelStatus.candidate else ModelStatus.validated;
    dataset_fingerprint = d.dataset_fingerprint;
    parent_model_id = parent;
  }
  modify λ s. record s { models = s.models ++ (model ∷ []) }
  pure model

-- The rest of `retrain`, once the parent is found.
unfoldable pub retrain_from :
    MlResearch → Uuid → MlModel → ExperimentDefinition → RetrainingTrigger → ModelMethod MlModel
unfolding record_model_decision trigger_allowed persist
retrain_from research new parent d trigger = do
  raise_when (str_eq d.experiment_key parent.model_key)
      "retrained candidate requires a new experiment_key"
  drifts ← gets λ s. drifts_of parent.id s.drifts
  lift (trigger_allowed trigger d parent drifts)
  flagged ← lift (research.run d)
  model ← persist new d flagged (some parent.id)
  modify (
      record_model_decision record {
        decision_type = "MODEL_RETRAINED";
        outcome = "CANDIDATE_CREATED";
        model_id = model.id;
      })
  pure model

unfoldable pub retrain :
    MlResearch → Uuid → Uuid → ExperimentDefinition → RetrainingTrigger → ModelMethod MlModel
unfolding require_model retrain_from
retrain research new parent_model_id d trigger = do
  parent ← require_model parent_model_id
  retrain_from research new parent d trigger

-- The row that `parent_model_id` names, if there is one.
abbrev pub find_parent : Option Uuid → List MlModel → Option MlModel
find_parent none models = none
find_parent (some p) models = find (is_model p) models

abbrev push : MlModel → Option (List MlModel) → Option (List MlModel)
push m none = none
push m (some ms) = some (m ∷ ms)

-- The loop of `lineage` over the parents; `none` is a loop that has not ended.
unfoldable pub ancestors : ℕ → List MlModel → Option MlModel → Option (List MlModel)
ancestors fuel models none = some []
ancestors zero models (some m) = none
ancestors (suc fuel) models (some m) =
    push m (ancestors fuel models (find_parent m.parent_model_id models))
