-- ===== src/MlLifecycle/Drift.antt =====
-- `assess_drift` (app/ml_research/lifecycle.py) over any type of numbers. Its rules, a report of the same
-- tests, are left out.
use mercury_trading.Base.{
  ℕ, Bool, true, false, not, ◌||◌, Option, none, some, List, [], ◌∷◌, ◌++◌, any, map, String,
  str_eq, if◌then◌else◌,
}
use mercury_trading.Base.Int.{ℤ, pos, leb_ℤ}
use mercury_trading.PaperTrading.Number.{Number, nought, max_of}

pub data DriftType : Type 0 where
  data_drift feature_drift prediction_drift performance_drift : DriftType
  feature_importance_drift regime_performance_degradation : DriftType

-- What a window says of a model: `baseline` or `observed`.
pub record Snapshot (F : Type 0) : Type 0 where
  pub dataset_fingerprint : Option String
  pub feature_means : List (String × F)
  pub feature_importance : List (String × F)
  pub regime_metrics : List (String × List (String × F))
  pub values : List (String × F)

pub record DriftAssessment : Type 0 where
  pub drift_types : List DriftType
  pub sufficient_evidence : Bool

abbrev same_fingerprint : Option String → Option String → Bool
same_fingerprint none none = true
same_fingerprint (some a) (some b) = str_eq a b
same_fingerprint _ _ = false

abbrev drift_when : Bool → DriftType → List DriftType
drift_when true d = d ∷ []
drift_when false d = []

module _ {A : Type 0} where
  -- `d.get(key, default)`
  unfoldable pub get_default : A → String → List (String × A) → A
  get_default default key [] = default
  get_default default key ((k, x) ∷ d) = if str_eq k key then x else get_default default key d

module _ {F : Type 0} ⦃num : Number F⦄ where
  open num use {add, sub, div, absolute, of_nat, le, lt}

  abbrev pub hundredths : ℕ → F
  hundredths n = div (of_nat n) (of_nat 100)

  unfoldable pub value_of : List (String × F) → String → F
  unfolding get_default
  value_of values key = get_default nought key values

  -- `max(…, default=0.0)`
  abbrev largest : List F → F
  largest [] = nought
  largest (x ∷ []) = x
  largest (x ∷ y ∷ xs) = largest (max_of x y ∷ xs)

  -- `_max_difference`; a key of both dictionaries stands twice.
  unfoldable pub max_difference : List (String × F) → List (String × F) → F
  unfolding value_of
  max_difference l r = largest (
      map (λ key. absolute (sub (value_of l key) (value_of r key)))
        (map (λ item. item.0) l ++ map (λ item. item.0) r))

  unfoldable pub regime_degraded :
      List (String × List (String × F)) → List (String × List (String × F)) → Bool
  unfolding value_of
  regime_degraded baseline observed =
      any
        (λ item.
          lt (value_of (get_default [] item.0 observed) "ic")
            (sub (value_of item.1 "ic") (hundredths 5)))
        baseline

  unfoldable pub performance_worse : Snapshot F → Snapshot F → Bool
  unfolding value_of
  performance_worse baseline observed =
      lt (value_of observed.values "ic") (sub (value_of baseline.values "ic") (hundredths 5))
      || (lt (value_of observed.values "rank_ic")
            (sub (value_of baseline.values "rank_ic") (hundredths 5))
          || lt (value_of observed.values "portfolio_sharpe")
              (sub (value_of baseline.values "portfolio_sharpe") (hundredths 50)))

  unfoldable pub assess_drift : Snapshot F → Snapshot F → ℤ → DriftAssessment
  unfolding max_difference regime_degraded performance_worse
  assess_drift baseline observed sample_count =
      let sufficient = leb_ℤ (pos 30) sample_count in
      record {
        sufficient_evidence = sufficient;
        drift_types =
            if not sufficient
            then []
            else drift_when
                (not (same_fingerprint baseline.dataset_fingerprint observed.dataset_fingerprint))
                DriftType.data_drift
              ++ (drift_when
                    (lt (hundredths 50)
                      (max_difference baseline.feature_means observed.feature_means))
                    DriftType.feature_drift
                  ++ (drift_when
                        (lt (hundredths 50) (
                          absolute (
                            sub (value_of observed.values "prediction_mean")
                              (value_of baseline.values "prediction_mean"))))
                        DriftType.prediction_drift
                      ++ (drift_when (performance_worse baseline observed)
                            DriftType.performance_drift
                          ++ (drift_when
                                (lt (hundredths 20) (
                                  max_difference baseline.feature_importance
                                    observed.feature_importance))
                                DriftType.feature_importance_drift
                              ++ drift_when
                                  (regime_degraded baseline.regime_metrics observed.regime_metrics)
                                  DriftType.regime_performance_degradation))));
      }
