-- ===== src/MlLifecycle/Promotion.antt =====
-- `decide_promotion` (app/ml_research/lifecycle.py).
use mercury_trading.Base.{
  ◌==◌, Bool, true, false, ◌&&◌, Option, none, some, List, [], ◌∷◌, ◌++◌, if◌then◌else◌, String,
  Result, ok, err,
}
use mercury_trading.Base.Int.{pos, leb_ℤ}
use mercury_trading.Base.Session.{pure, lift, modify, raise_when, ◌>>=◌, ◌>>◌}
use mercury_trading.PaperTrading.Number.{Number}
use mercury_trading.MlLifecycle.Drift.{hundredths}
use mercury_trading.MlLifecycle.Model.{
  Uuid, ModelStatus, MlModel, MlModelPromotion, OosMetrics, PromotionEvidence,
}
use mercury_trading.MlLifecycle.Service.{ModelMethod, require_model, record_model_decision}

abbrev pub is_validated : ModelStatus → Bool
is_validated ModelStatus.validated = true
is_validated _ = false

unfoldable pub set_status : Uuid → ModelStatus → List MlModel → List MlModel
set_status i status [] = []
set_status i status (m ∷ ms) =
    (if m.id == i then record m { status = status } else m) ∷ set_status i status ms

-- `self._model(champion_model_id) if champion_model_id else None`
unfoldable pub require_champion : Option Uuid → ModelMethod (Option MlModel)
unfolding require_model
require_champion none = pure none
require_champion (some i) = do champion ← require_model i; pure (some champion)

abbrev pub is_same : Option MlModel → MlModel → Bool
is_same none m = false
is_same (some c) m = c.id == m.id

abbrev pub id_of : Option MlModel → Option Uuid
id_of none = none
id_of (some m) = some m.id

-- The champion, if there is one, is superseded.
unfoldable pub dethrone : Option MlModel → List MlModel → List MlModel
unfolding set_status
dethrone none ms = ms
dethrone (some c) ms = set_status c.id ModelStatus.superseded ms

-- The rows and the decision that follow the judgement.
unfoldable pub write_promotion : Option MlModel → MlModel → Bool → ModelMethod MlModelPromotion
unfolding dethrone record_model_decision
write_promotion champion candidate promoted = do
  let row : MlModelPromotion = record {
    candidate_model_id = candidate.id;
    champion_model_id = id_of champion;
    promoted = promoted;
  }
  modify λ s. record s { promotions = s.promotions ++ (row ∷ []) }
  modify λ s. record s {
    models =
        if promoted
        then set_status candidate.id ModelStatus.champion (dethrone champion s.models)
        else s.models;
  }
  modify (
      record_model_decision record {
        decision_type = if promoted then "ML_MODEL_PROMOTION" else "ML_MODEL_REJECTION";
        outcome = if promoted then "PROMOTE" else "REJECT";
        model_id = candidate.id;
      })
  pure row

module _ {F : Type 0} ⦃num : Number F⦄ where
  open num use {add, le}

  -- `beats_ic`, `beats_rank`, `beats_sharpe` and `protects_drawdown` against these metrics.
  unfoldable pub beats : OosMetrics F → OosMetrics F → Bool
  beats candidate champion =
      le (add champion.ic (hundredths 1)) candidate.ic
      && (le champion.rank_ic candidate.rank_ic
          && (le champion.sharpe candidate.sharpe
              && le champion.max_drawdown candidate.max_drawdown))

  -- Against no champion every comparison holds; the metrics of a champion must be there.
  unfoldable pub beats_champion :
      OosMetrics F → Option MlModel → Option (OosMetrics F) → Result String Bool
  unfolding beats
  beats_champion candidate none metrics = ok true
  beats_champion candidate (some c) none = err "KeyError"
  beats_champion candidate (some c) (some metrics) = ok (beats candidate metrics)

  -- `promoted`
  unfoldable pub meets_criteria : MlModel → PromotionEvidence F → Bool → Bool
  meets_criteria candidate evidence better =
      leb_ℤ (pos 30) evidence.candidate_oos.sample_count
      && (better
          && (is_validated candidate.status && (evidence.stress_passed && evidence.regime_passed)))

  unfoldable pub decide_promotion :
      Option Uuid → Uuid → PromotionEvidence F → ModelMethod MlModelPromotion
  unfolding require_champion beats_champion meets_criteria write_promotion
  decide_promotion champion_model_id candidate_model_id evidence = do
    candidate ← require_model candidate_model_id
    champion ← require_champion champion_model_id
    raise_when (is_same champion candidate) "candidate and champion must be different models"
    better ← lift (beats_champion evidence.candidate_oos champion evidence.champion_oos)
    write_promotion champion candidate (meets_criteria candidate evidence better)
