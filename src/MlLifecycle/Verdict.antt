-- ===== src/MlLifecycle/Verdict.antt =====
-- What a promotion decides and what it writes (app/ml_research/lifecycle.py).
use mercury_trading.Base.{
  ◌≡◌, ◌≢◌, ◌↔◌, refl, sym, ap, ◌∙◌, subst, Bool, true, false, Option, none, some, List, find,
  if◌then◌else◌, String, Result, ok, err, ok-injective, &&-split, Bool-cases, inl, inr, arith,
}
use mercury_trading.Base.Int.{pos, leb_ℤ}
use mercury_trading.Base.Session.{or_error, or_error-ok, continue-returns, continue, pure, ◌>>=◌}
use mercury_trading.PaperTrading.Number.{Number}
use mercury_trading.MlLifecycle.Model.{
  Uuid, ModelStatus, MlModel, MlModelPromotion, ModelStore, OosMetrics, PromotionEvidence,
}
use mercury_trading.MlLifecycle.Service.{is_model, require_model, record_model_decision}
use mercury_trading.MlLifecycle.Statuses.{
  status_of, status_in, status-set_status_ne, status-set_status, find-id, IsChampion,
  dethrone-statuses,
}
use mercury_trading.MlLifecycle.Promotion.{
  is_validated, set_status, require_champion, is_same, dethrone, write_promotion, beats,
  beats_champion, meets_criteria, decide_promotion,
}

guard-returns :
    {E : Type 0} (b : Bool) (e : E) (u : Unit {0})
    → ◌≡◌ {A = Result E (Unit {0})} (if b then err e else ok tt) (ok u)
    → b ≡ false
guard-returns true e u h = cc
guard-returns false e u h = refl

write_promotion-writes :
    (champion : Option MlModel) (candidate : MlModel) (b : Bool) (s s' : ModelStore)
    (p : MlModelPromotion)
    → write_promotion champion candidate b s ≡ (ok p, s')
    → (p.promoted ≡ b)
      × (s'.models ≡ (
          if b
          then set_status candidate.id ModelStatus.champion (dethrone champion s.models)
          else s.models))
unfolding write_promotion record_model_decision ◌>>=◌
write_promotion-writes champion candidate b s s' p e =
    (ap (λ q. q.promoted) (sym (ok-injective (ap (λ t. t.0) e))), ap (λ t. t.1.models) (sym e))

found-champion :
    (o : Option MlModel) (s : ModelStore) (c : Option MlModel)
    → (continue {E = String} (or_error "ML model not found" o) s (λ m. pure (some m))).0 ≡ ok c
    → ((m : MlModel) × ((c ≡ some m) × (o ≡ some m)))
      × ((continue {E = String} (or_error "ML model not found" o) s (λ m. pure (some m))).1 ≡ s)
unfolding ◌>>=◌
found-champion none s c e = cc
found-champion (some m) s c e = ((m, (sym (ok-injective e), refl)), refl)

require_champion-IsChampion :
    (i : Option Uuid) (s : ModelStore) (c : Option MlModel)
    → (require_champion i s).0 ≡ ok c
    → IsChampion i s.models c × ((require_champion i s).1 ≡ s)
unfolding require_champion require_model ◌>>=◌
require_champion-IsChampion none s c e = (sym (ok-injective e), refl)
require_champion-IsChampion (some i) s c e = found-champion (find (is_model i) s.models) s c e

status_iff :
    (t : ModelStatus)
    → (is_validated t ≡ true) ↔ (◌≡◌ {A = Option ModelStatus} (some t) (some ModelStatus.validated))
status_iff ModelStatus.candidate = ((λ h. absurd (ground arith)), (λ h. cc))
status_iff ModelStatus.validated = ((λ h. refl), (λ h. refl))
status_iff ModelStatus.champion = ((λ h. absurd (ground arith)), (λ h. cc))
status_iff ModelStatus.superseded = ((λ h. absurd (ground arith)), (λ h. cc))

validated_iff :
    (m : MlModel)
    → (is_validated m.status ≡ true) ↔ (status_of (some m) ≡ some ModelStatus.validated)
validated_iff m = status_iff m.status

module _ {F : Type 0} ⦃num : Number F⦄ where
  -- The verdict on a candidate: when it is promoted, and the status of every model afterwards.
  pub record IsVerdict (champion_id : Option Uuid) (candidate_id : Uuid)
      (evidence : PromotionEvidence F) (s : ModelStore) (p : MlModelPromotion) (s' : ModelStore)
      : Type 0 where
    pub criteria : (p.promoted ≡ true) ↔ (
        (leb_ℤ (pos 30) evidence.candidate_oos.sample_count ≡ true)
        × (((c : Uuid)
              → champion_id ≡ some c
              → (metrics : OosMetrics F) → evidence.champion_oos ≡ some metrics
              → beats evidence.candidate_oos metrics ≡ true)
            × ((status_in candidate_id s.models ≡ some ModelStatus.validated)
                × ((evidence.stress_passed ≡ true) × (evidence.regime_passed ≡ true)))))
    pub rejected : p.promoted ≡ false → s'.models ≡ s.models
    pub crowned : p.promoted ≡ true → status_in candidate_id s'.models ≡ some ModelStatus.champion
    pub dethroned :
        p.promoted ≡ true
        → (c : Uuid) → champion_id ≡ some c
        → status_in c s'.models ≡ some ModelStatus.superseded
    pub others :
        (k : Uuid)
        → k ≢ candidate_id
        → champion_id ≢ some k
        → status_in k s'.models ≡ status_in k s.models

  record IsJudged (champion_id : Option Uuid) (candidate_id : Uuid) (evidence : PromotionEvidence F)
      (s : ModelStore) (p : MlModelPromotion) (s' : ModelStore) : Type 0 where
    candidate : MlModel
    champion : Option MlModel
    better : Bool
    found : find (is_model candidate_id) s.models ≡ some candidate
    champion_found : IsChampion champion_id s.models champion
    different : is_same champion candidate ≡ false
    compared : beats_champion evidence.candidate_oos champion evidence.champion_oos ≡ ok better
    judged : p.promoted ≡ meets_criteria candidate evidence better
    written : s'.models ≡ (
        if meets_criteria candidate evidence better
        then set_status candidate.id ModelStatus.champion (dethrone champion s.models)
        else s.models)

  decide_promotion-IsJudged :
      (ch : Option Uuid) (i : Uuid) (ev : PromotionEvidence F) (s s' : ModelStore)
      (p : MlModelPromotion)
      → decide_promotion ch i ev s ≡ (ok p, s')
      → IsJudged ch i ev s p s'
  unfolding decide_promotion require_model write_promotion record_model_decision ◌>>=◌
  decide_promotion-IsJudged ch i ev s s' p runs =
      let (candidate, found, rest) =
        continue-returns (or_error "ML model not found" (find (is_model i) s.models)) s s' _ p
          runs in
      let (champion, called, rest') =
        continue-returns (require_champion ch s).0 (require_champion ch s).1 s' _ p rest in
      let (is_champion, same) = require_champion-IsChampion ch s champion called in
      let (u, differs, rest'') =
        continue-returns
          (if is_same champion candidate
            then err "candidate and champion must be different models"
            else ok tt)
          (require_champion ch s).1 s' _ p rest' in
      let (better, compared, last) =
        continue-returns (beats_champion ev.candidate_oos champion ev.champion_oos)
          (require_champion ch s).1 s' _ p rest'' in
      let (judged, written) =
        write_promotion-writes champion candidate (meets_criteria candidate ev better) _ s' p
          last in
      record {
        candidate = candidate;
        champion = champion;
        better = better;
        found = or_error-ok "ML model not found" (find (is_model i) s.models) candidate found;
        champion_found = is_champion;
        different = guard-returns _ _ u differs;
        compared = compared;
        judged = judged;
        written =
            subst
              (λ t. s'.models ≡ (
                if meets_criteria candidate ev better
                then set_status candidate.id ModelStatus.champion (dethrone champion t.models)
                else t.models))
              same written;
      }

  judged-compared :
      (ch : Option Uuid) (ms : List MlModel) (x : OosMetrics F) (c : Option MlModel)
      (o : Option (OosMetrics F)) (b : Bool)
      → IsChampion ch ms c
      → beats_champion x c o ≡ ok b
      → (b ≡ true) ↔ ((i : Uuid) → ch ≡ some i → (m : OosMetrics F) → o ≡ some m → beats x m ≡ true)
  unfolding beats_champion
  judged-compared none ms x none o b c e =
      ((λ h i no m q. absurd (ground arith)), (λ h. sym (ok-injective e)))
  judged-compared none ms x (some n) o b c e = absurd (ground arith)
  judged-compared (some i) ms x none o b c e = absurd (let (m, (gone, f)) = c in ground arith)
  judged-compared (some i) ms x (some n) none b c e = cc
  judged-compared (some i) ms x (some n) (some q) b c e = (
    (λ h j same m same'.
        let eq : q ≡ m = cc in subst (λ r. beats x r ≡ true) eq (ok-injective e ∙ h)),
    (λ h. sym (ok-injective e) ∙ h i refl q refl),
  )

  meets_criteria_iff :
      (m : MlModel) (ev : PromotionEvidence F) (b : Bool)
      → (meets_criteria m ev b ≡ true) ↔ (
          (leb_ℤ (pos 30) ev.candidate_oos.sample_count ≡ true)
          × ((b ≡ true)
              × ((is_validated m.status ≡ true)
                  × ((ev.stress_passed ≡ true) × (ev.regime_passed ≡ true)))))
  unfolding meets_criteria
  meets_criteria_iff m ev b = (
    (λ h.
        let (a, r) = &&-split (leb_ℤ (pos 30) ev.candidate_oos.sample_count) _ h in
        let (c, r') = &&-split b _ r in
        let (d, r'') = &&-split (is_validated m.status) _ r' in
        (a, (c, (d, &&-split ev.stress_passed ev.regime_passed r'')))),
    (λ (a, (c, (d, (x, y)))). rw (a, c, d, x, y) refl),
  )

  criteria_of :
      (ch : Option Uuid) (i : Uuid) (ev : PromotionEvidence F) (s s' : ModelStore)
      (p : MlModelPromotion)
      → IsJudged ch i ev s p s'
      → (p.promoted ≡ true) ↔ (
          (leb_ℤ (pos 30) ev.candidate_oos.sample_count ≡ true)
          × (((c : Uuid)
                → ch ≡ some c
                → (m : OosMetrics F) → ev.champion_oos ≡ some m
                → beats ev.candidate_oos m ≡ true)
              × ((status_in i s.models ≡ some ModelStatus.validated)
                  × ((ev.stress_passed ≡ true) × (ev.regime_passed ≡ true)))))
  criteria_of ch i ev s s' p j =
      let met = meets_criteria_iff j.candidate ev j.better in
      let better =
        judged-compared ch s.models ev.candidate_oos j.champion ev.champion_oos j.better
          j.champion_found j.compared in
      let valid = validated_iff j.candidate in
      (
        (λ h.
            let (a, (b, (v, r))) = met.0 (sym j.judged ∙ h) in
            (a, (better.0 b, (ap status_of j.found ∙ valid.0 v, r)))),
        (λ (a, (b, (v, r))).
            j.judged ∙ met.1 (a, (better.1 b, (valid.1 (ap status_of (sym j.found) ∙ v), r)))),
      )

  written_when :
      (ch : Option Uuid) (i : Uuid) (ev : PromotionEvidence F) (s s' : ModelStore)
      (p : MlModelPromotion) (j : IsJudged ch i ev s p s')
      → s'.models ≡ (
          if p.promoted
          then set_status i ModelStatus.champion (dethrone j.champion s.models)
          else s.models)
  written_when ch i ev s s' p j =
      rw (j.judged, sym (find-id i s.models j.candidate j.found)) j.written

  -- A decision on a promotion that returns promotes exactly if the candidate is validated, has 30
  -- samples, passed stress and regime and beats the metrics of the champion where there is one;
  -- then the candidate is champion and the former champion superseded, else no row changes; the
  -- status of every other model stays.
  pub decide_promotion-IsVerdict :
      (ch : Option Uuid) (i : Uuid) (ev : PromotionEvidence F) (s s' : ModelStore)
      (p : MlModelPromotion)
      → decide_promotion ch i ev s ≡ (ok p, s')
      → IsVerdict ch i ev s p s'
  decide_promotion-IsVerdict ch i ev s s' p runs =
      let j = decide_promotion-IsJudged ch i ev s s' p runs in
      let written = written_when ch i ev s s' p j in
      let (kept, (superseded, others)) =
        dethrone-statuses ch i s.models j.champion j.candidate j.champion_found
          (find-id i s.models j.candidate j.found) j.different in
      record {
        criteria = criteria_of ch i ev s s' p j;
        rejected = λ no. written ∙ rw no refl;
        crowned = λ wins.
            ap (status_in i) (written ∙ rw wins refl)
            ∙ status-set_status i ModelStatus.champion j.candidate.status
                (dethrone j.champion s.models) (kept ∙ ap status_of j.found);
        dethroned = λ wins c e.
            let (apart, status) = superseded c e in
            ap (status_in c) (written ∙ rw wins refl)
            ∙ (status-set_status_ne i c ModelStatus.champion (dethrone j.champion s.models) apart
                ∙ status);
        others = λ k ne no. elim (Bool-cases p.promoted) [
          | inl wins ↦
              ap (status_in k) (written ∙ rw wins refl)
              ∙ (status-set_status_ne i k ModelStatus.champion (dethrone j.champion s.models)
                    (ground arith)
                  ∙ others k no)
          | inr rejected ↦ ap (status_in k) (written ∙ rw rejected refl)
        ];
      }
