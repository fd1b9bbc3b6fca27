-- ===== src/MlLifecycle/Growth.antt =====
-- The table of models as the calls of app/ml_research/lifecycle.py and of `persist` leave it: every
-- row follows its parent.
use mercury_trading.Base.{
  ℕ, ◌≡◌, refl, subst, sym, ◌==◌, Bool, true, false, ◌||◌, Option, none, some, List, [], ◌∷◌, ◌++◌,
  any, find, arith, Bool-cases, Option-cases, inl, inr, str_eq, if-false, if◌then◌else◌,
}
use mercury_trading.Base.Int.{ℤ}
use mercury_trading.Base.Session.{◌>>=◌}
use mercury_trading.Base.Keeps.{
  Keeps, Keeps-pure, Keeps-gets, Keeps-lift, Keeps-modify, Keeps-raise_when, Keeps-bind,
}
use mercury_trading.PaperTrading.Number.{Number}
use mercury_trading.MlLifecycle.Drift.{Snapshot}
use mercury_trading.MlLifecycle.Model.{
  Uuid, ModelStatus, RetrainingTrigger, MlModel, ModelStore, ExperimentDefinition,
  PromotionEvidence, MlResearch,
}
use mercury_trading.MlLifecycle.Service.{
  is_model, require_model, record_drift, persist, retrain_from, retrain,
}
use mercury_trading.MlLifecycle.Promotion.{
  set_status, dethrone, require_champion, write_promotion, decide_promotion,
}
use mercury_trading.MlLifecycle.Statuses.{find-id, some-injective}

-- A call that writes models or drifts, with what it is given.
pub data ModelOperation (F : Type 0) : Type 0 where
  store_model : (new : Uuid) (d : ExperimentDefinition) (flagged : Bool) → ModelOperation F
  train_again :
      (new parent : Uuid) (d : ExperimentDefinition) (trigger : RetrainingTrigger)
      → ModelOperation F
  note_drift :
      (i : Uuid) (observed_at window_start window_end : ℕ) (sample_count : ℤ)
      (baseline observed : Snapshot F)
      → ModelOperation F
  decide : (champion : Option Uuid) (candidate : Uuid) (e : PromotionEvidence F) → ModelOperation F

module _ {F : Type 0} ⦃num : Number F⦄ (research : MlResearch) where
  -- What a call leaves, whether it returned or raised.
  abbrev pub perform : ModelOperation F → ModelStore → ModelStore
  perform (store_model new d flagged) s = (persist new d flagged none s).1
  perform (train_again new parent d trigger) s = (retrain research new parent d trigger s).1
  perform (note_drift i at_time start end n baseline observed) s =
      (record_drift i at_time start end n baseline observed s).1
  perform (decide champion candidate e) s = (decide_promotion champion candidate e s).1

  abbrev pub perform_all : List (ModelOperation F) → ModelStore → ModelStore
  perform_all [] s = s
  perform_all (o ∷ os) s = perform_all os (perform o s)

abbrev pub has : Uuid → List Uuid → Bool
has p = any λ i. i == p

-- After the rows with the ids of `seen`: no id is there twice, and a parent comes before its children.
abbrev pub IsGrown : List Uuid → List MlModel → Type 0
IsGrown seen [] = Unit
IsGrown seen (m ∷ ms) =
    (has m.id seen ≡ false)
    × ((p : Uuid) → m.parent_model_id ≡ some p → has p seen ≡ true)
    × IsGrown (m.id ∷ seen) ms

IsGrown-append :
    (new : MlModel) (seen : List Uuid) (ms : List MlModel)
    → IsGrown seen ms
    → has new.id seen ≡ false
    → any (is_model new.id) ms ≡ false
    → ((p : Uuid) → new.parent_model_id ≡ some p → (has p seen || any (is_model p) ms) ≡ true)
    → IsGrown seen (ms ++ (new ∷ []))
IsGrown-append new seen [] g fresh other parent =
    (fresh, (λ p e. let h = parent p e in ground arith), tt)
IsGrown-append new seen (m ∷ ms) (apart, before, g) fresh other parent = (
  apart,
  before,
  IsGrown-append new (m.id ∷ seen) ms g (ground arith) (ground arith)
      λ p e. let h = parent p e in ground arith,
)

IsGrown-set_status :
    (i : Uuid) (st : ModelStatus) (seen : List Uuid) (ms : List MlModel)
    → IsGrown seen ms
    → IsGrown seen (set_status i st ms)
unfolding set_status
IsGrown-set_status i st seen [] g = tt
IsGrown-set_status i st seen (m ∷ ms) (apart, before, g) = elim (Bool-cases (m.id == i)) [
  | inl at ↦ rw at (apart, before, IsGrown-set_status i st (m.id ∷ seen) ms g)
  | inr off ↦ rw off (apart, before, IsGrown-set_status i st (m.id ∷ seen) ms g)
]

IsGrown-dethrone :
    (c : Option MlModel) (ms : List MlModel) → IsGrown [] ms → IsGrown [] (dethrone c ms)
unfolding dethrone
IsGrown-dethrone none ms g = g
IsGrown-dethrone (some c) ms g = IsGrown-set_status c.id ModelStatus.superseded [] ms g

abbrev pub Grown : ModelStore → Type 0
Grown s = IsGrown [] s.models

-- The table is grown, and has a row for the parent to be.
abbrev GrownWith : Option Uuid → ModelStore → Type 0
GrownWith parent s = Grown s × ((p : Uuid) → parent ≡ some p → any (is_model p) s.models ≡ true)

any-append-of :
    (p : Uuid) (ms ns : List MlModel)
    → any (is_model p) ms ≡ true
    → any (is_model p) (ms ++ ns) ≡ true
any-append-of p [] ns h = absurd (ground arith)
any-append-of p (m ∷ ms) ns h = elim (Bool-cases (m.id == p)) [
  | inl at ↦ ground arith
  | inr off ↦ let rest = any-append-of p ms ns (ground arith) in ground arith
]

persist-Grown :
    (new : Uuid) (d : ExperimentDefinition) (flagged : Bool) (parent : Option Uuid)
    → Keeps (GrownWith parent) (persist new d flagged parent)
unfolding persist ◌>>=◌
persist-Grown new d flagged parent = record {
  keep = λ s (g, known).
      elim (Bool-cases
        (any (λ m. str_eq m.model_key d.experiment_key) s.models || any (is_model new) s.models)) [
          | inl taken ↦ rw taken (g, known)
          | inr free ↦ rw free (
            IsGrown-append _ [] s.models g refl (ground arith) known,
            (λ p e. any-append-of p s.models _ (known p e)),
          )
        ];
}

find-any :
    (i : Uuid) (ms : List MlModel) (m : MlModel)
    → find (is_model i) ms ≡ some m
    → any (is_model i) ms ≡ true
find-any i [] m e = absurd (ground arith)
find-any i (n ∷ ms) m e = elim (Bool-cases (n.id == i)) [
  | inl at ↦ ground arith
  | inr off ↦ let rest = find-any i ms m (if-false _ _ _ off e) in ground arith
]

module _ (research : MlResearch) where
  retrain_from-Grown :
      (new : Uuid) (parent : MlModel) (d : ExperimentDefinition) (trigger : RetrainingTrigger)
      → Keeps (GrownWith (some parent.id)) (retrain_from research new parent d trigger)
  unfolding retrain_from
  retrain_from-Grown new parent d trigger =
      let P = GrownWith (some parent.id) in
      Keeps-bind P _ _ (Keeps-raise_when P _ _) λ _. Keeps-bind P _ _ (Keeps-gets P _) λ drifts.
        Keeps-bind P _ _ (Keeps-lift P _) λ _. Keeps-bind P _ _ (Keeps-lift P _) λ flagged.
          Keeps-bind P _ _ (persist-Grown new d flagged (some parent.id))
            λ m. Keeps-bind P _ _ (Keeps-modify P _ (λ s g. g)) λ _. Keeps-pure P _

  retrain-Grown :
      (new i : Uuid) (d : ExperimentDefinition) (trigger : RetrainingTrigger) (s : ModelStore)
      → Grown s
      → Grown (retrain research new i d trigger s).1
  unfolding retrain require_model ◌>>=◌
  retrain-Grown new i d trigger s g = elim (Option-cases (find (is_model i) s.models)) [
    | inl e ↦ rw e g
    | inr (m, e) ↦
        let here : m.id ≡ i = find-id i s.models m e in
        let stored : any (is_model m.id) s.models ≡ true =
          subst (λ k. any (is_model k) s.models ≡ true) (sym here) (find-any i s.models m e) in
        let known : (p : Uuid) → some m.id ≡ some p → any (is_model p) s.models ≡ true =
          λ p h. subst (λ k. any (is_model k) s.models ≡ true) (some-injective h) stored in
        rw e ((retrain_from-Grown new m d trigger).keep s (g, known)).0
  ]

require_model-Grown : (i : Uuid) → Keeps Grown (require_model i)
unfolding require_model
require_model-Grown i = Keeps-bind Grown _ _ (Keeps-gets Grown _) λ _. Keeps-lift Grown _

require_champion-Grown : (c : Option Uuid) → Keeps Grown (require_champion c)
unfolding require_champion
require_champion-Grown none = Keeps-pure Grown none
require_champion-Grown (some i) =
    Keeps-bind Grown _ _ (require_model-Grown i) λ _. Keeps-pure Grown _

write_promotion-Grown :
    (champion : Option MlModel) (candidate : MlModel) (promoted : Bool)
    → Keeps Grown (write_promotion champion candidate promoted)
unfolding write_promotion
write_promotion-Grown champion candidate promoted =
    Keeps-bind Grown _ _ (Keeps-modify Grown _ (λ s g. g)) λ _.
      Keeps-bind Grown _ _ (Keeps-modify Grown _ (λ s g. crowned s.models promoted g))
        λ _. Keeps-bind Grown _ _ (Keeps-modify Grown _ (λ s g. g)) λ _. Keeps-pure Grown _
  where
    crowned :
        (ms : List MlModel) (b : Bool)
        → IsGrown [] ms
        → IsGrown []
            (if b then set_status candidate.id ModelStatus.champion (dethrone champion ms) else ms)
    crowned ms true g =
        IsGrown-set_status candidate.id ModelStatus.champion [] (dethrone champion ms)
          (IsGrown-dethrone champion ms g)
    crowned ms false g = g

module _ {F : Type 0} ⦃num : Number F⦄ where
  decide_promotion-Grown :
      (champion : Option Uuid) (candidate : Uuid) (e : PromotionEvidence F)
      → Keeps Grown (decide_promotion champion candidate e)
  unfolding decide_promotion
  decide_promotion-Grown champion candidate e =
      Keeps-bind Grown _ _ (require_model-Grown candidate) λ c.
        Keeps-bind Grown _ _ (require_champion-Grown champion) λ h.
          Keeps-bind Grown _ _ (Keeps-raise_when Grown _ _)
            λ _. Keeps-bind Grown _ _ (Keeps-lift Grown _) λ better. write_promotion-Grown h c _

  record_drift-Grown :
      (i : Uuid) (observed_at window_start window_end : ℕ) (n : ℤ) (baseline observed : Snapshot F)
      → Keeps Grown (record_drift i observed_at window_start window_end n baseline observed)
  unfolding record_drift
  record_drift-Grown i observed_at window_start window_end n baseline observed =
      Keeps-bind Grown _ _ (require_model-Grown i) λ m.
        Keeps-bind Grown _ _ (Keeps-raise_when Grown _ _) λ _.
          Keeps-bind Grown _ _ (Keeps-gets Grown _) λ prior.
            Keeps-bind Grown _ _ (Keeps-modify Grown _ (λ s g. g))
              λ _. Keeps-bind Grown _ _ (Keeps-modify Grown _ (λ s g. g)) λ _. Keeps-pure Grown _

  module _ (research : MlResearch) where
    perform-Grown : (o : ModelOperation F) (s : ModelStore) → Grown s → Grown (perform research o s)
    perform-Grown (store_model new d flagged) s g =
        ((persist-Grown new d flagged none).keep s (g, (λ p e. absurd (ground arith)))).0
    perform-Grown (train_again new i d trigger) s g = retrain-Grown research new i d trigger s g
    perform-Grown (note_drift i at_time start end n baseline observed) s g =
        (record_drift-Grown i at_time start end n baseline observed).keep s g
    perform-Grown (decide champion candidate e) s g =
        (decide_promotion-Grown champion candidate e).keep s g

    -- Calls of the service keep the table grown.
    pub perform_all-Grown :
        (os : List (ModelOperation F)) (s : ModelStore)
        → Grown s
        → Grown (perform_all research os s)
    perform_all-Grown [] s g = g
    perform_all-Grown (o ∷ os) s g =
        perform_all-Grown os (perform research o s) (perform-Grown o s g)
