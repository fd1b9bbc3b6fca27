-- ===== src/MlLifecycle/Tests.antt =====
-- Runs of the life cycle of models (app/ml_research/lifecycle.py), with whole numbers for the floats.
use mercury_trading.Base.{ℕ, ◌≡◌, refl, true, false, none, some, List, [], ◌∷◌, ok, find, length}
use mercury_trading.Base.Int.{pos}
use mercury_trading.Base.Session.{◌>>=◌}
use mercury_trading.PaperTrading.Tests.{cents}
use mercury_trading.MlLifecycle.Drift.{DriftType, Snapshot}
use mercury_trading.MlLifecycle.Model.{
  ModelStatus, RetrainingTrigger, MlModel, MlDriftObservation, MlModelPromotion, ModelStore,
  OosMetrics, PromotionEvidence, MlResearch,
}
use mercury_trading.MlLifecycle.Service.{ancestors, record_drift, persist, retrain, is_model}
use mercury_trading.MlLifecycle.Promotion.{decide_promotion}
use mercury_trading.MlLifecycle.Verdict.{IsVerdict, decide_promotion-IsVerdict}
use mercury_trading.MlLifecycle.Growth.{ModelOperation, store_model, train_again, perform_all}
use mercury_trading.MlLifecycle.Lineage.{IsLineage, ancestors-IsLineage}

abbrev momentum_model : MlModel
momentum_model = record {
  id = 1;
  model_key = "momentum";
  status = ModelStatus.champion;
  dataset_fingerprint = "d1";
  parent_model_id = none;
}

abbrev challenger : MlModel
challenger = record {
  id = 2;
  model_key = "momentum-2";
  status = ModelStatus.validated;
  dataset_fingerprint = "d2";
  parent_model_id = some 1;
}

abbrev registry : ModelStore
registry = record {
  models = momentum_model ∷ challenger ∷ [];
  drifts = [];
  promotions = [];
  decisions = [];
}

abbrev oos : ℕ → OosMetrics ℕ
oos n = record { sample_count = pos 40; ic = n; rank_ic = n; sharpe = n; max_drawdown = n }

abbrev evidence : PromotionEvidence ℕ
evidence = record {
  candidate_oos = oos 5;
  champion_oos = some (oos 3);
  stress_passed = true;
  regime_passed = true;
}

abbrev promotion : MlModelPromotion
promotion = record { candidate_model_id = 2; champion_model_id = some 1; promoted = true }

abbrev after_promotion : ModelStore
after_promotion = record registry {
  models =
      record momentum_model { status = ModelStatus.superseded }
      ∷ record challenger { status = ModelStatus.champion }
      ∷ [];
  promotions = promotion ∷ [];
  decisions =
      record { decision_type = "ML_MODEL_PROMOTION"; outcome = "PROMOTE"; model_id = 2 } ∷ [];
}

promoted_now : decide_promotion (some 1) 2 evidence registry ≡ (ok promotion, after_promotion)
unfolding decide_promotion ◌>>=◌
promoted_now = refl

decide_promotion-IsVerdict_example :
    IsVerdict (some 1) 2 evidence registry promotion after_promotion
decide_promotion-IsVerdict_example =
    decide_promotion-IsVerdict (some 1) 2 evidence registry after_promotion promotion promoted_now

abbrev window : ℕ → Snapshot ℕ
window mean = record {
  dataset_fingerprint = some "d1";
  feature_means = ("value", mean) ∷ [];
  feature_importance = [];
  regime_metrics = [];
  values = [];
}

abbrev earlier : List MlDriftObservation
earlier =
    record {
      model_id = 1;
      observed_at = 1;
      drift_types = DriftType.data_drift ∷ [];
      consecutive_windows = 1;
      retraining_triggered = false;
    }
    ∷ record {
      model_id = 1;
      observed_at = 2;
      drift_types = [];
      consecutive_windows = 0;
      retraining_triggered = false;
    }
    ∷ []

-- A window without drift stands between two with drift, and the second still counts as consecutive.
counts_through_clean_window :
    (record_drift 1 3 0 10 (pos 40) (window 9) (window 1) (record registry { drifts = earlier })).0
    ≡ ok record {
      model_id = 1;
      observed_at = 3;
      drift_types = DriftType.feature_drift ∷ [];
      consecutive_windows = 2;
      retraining_triggered = true;
    }
unfolding record_drift ◌>>=◌
counts_through_clean_window = refl

abbrev trained : MlResearch
trained = record { run = λ d. ok false }

-- A retrained model is validated at most, and follows its parent.
retrained :
    (retrain trained 3 1
      (record { experiment_key = "momentum-3"; dataset_fingerprint = "d3" })
      RetrainingTrigger.new_dataset
      registry).0
    ≡ ok record {
      id = 3;
      model_key = "momentum-3";
      status = ModelStatus.validated;
      dataset_fingerprint = "d3";
      parent_model_id = some 1;
    }
unfolding retrain ◌>>=◌
retrained = refl

-- A model and its retrained child, whose id is the smaller one.
abbrev calls : List (ModelOperation ℕ)
calls =
    store_model 9 (record { experiment_key = "value"; dataset_fingerprint = "d1" }) false
    ∷ train_again 4 9 (record { experiment_key = "value-2"; dataset_fingerprint = "d2" })
        RetrainingTrigger.new_dataset
    ∷ []

abbrev empty : ModelStore
empty = record registry { models = [] }

abbrev value_model : MlModel
value_model = record {
  id = 9;
  model_key = "value";
  status = ModelStatus.validated;
  dataset_fingerprint = "d1";
  parent_model_id = none;
}

abbrev value_child : MlModel
value_child = record {
  id = 4;
  model_key = "value-2";
  status = ModelStatus.validated;
  dataset_fingerprint = "d2";
  parent_model_id = some 9;
}

called : (perform_all trained calls empty).models ≡ value_model ∷ value_child ∷ []
unfolding persist retrain ◌>>=◌
called = refl

found_child : find (is_model 4) (perform_all trained calls empty).models ≡ some value_child
found_child = rw called refl

ancestors-IsLineage_example :
    (ms : List MlModel) × (ancestors
        (length (perform_all trained calls empty).models)
        (perform_all trained calls empty).models
        (some value_child)
      ≡ some ms)
    × IsLineage (perform_all trained calls empty).models (some value_child) ms
ancestors-IsLineage_example = ancestors-IsLineage trained calls empty 4 value_child refl found_child
