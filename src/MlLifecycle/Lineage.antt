-- ===== src/MlLifecycle/Lineage.antt =====
-- `lineage` ends (app/ml_research/lifecycle.py): its loop goes to an earlier row each time.
use mercury_trading.Base.{
  ℕ, zero, suc, ◌≡◌, ◌<◌, ◌==◌, ◌⊎◌, refl, sym, Bool, true, false, Option, none, some, List, [],
  ◌∷◌, find, length, All, arith, Bool-cases, inl, inr, if-false, subst, if◌then◌else◌,
}
use mercury_trading.PaperTrading.Number.{Number}
use mercury_trading.MlLifecycle.Model.{Uuid, MlModel, ModelStore, MlResearch}
use mercury_trading.MlLifecycle.Service.{is_model, find_parent, ancestors}
use mercury_trading.MlLifecycle.Statuses.{find-id, some-injective}
use mercury_trading.MlLifecycle.Growth.{
  ModelOperation, perform_all, has, IsGrown, perform_all-Grown,
}

-- The models of a lineage: each is followed by its parent, if the table has it.
abbrev pub IsLineage : List MlModel → Option MlModel → List MlModel → Type 0
IsLineage models none [] = Unit
IsLineage models none (m ∷ ms) = ⊥
IsLineage models (some m) [] = ⊥
IsLineage models (some m) (n ∷ ms) =
    (m ≡ n) × IsLineage models (find_parent m.parent_model_id models) ms

-- The place of the row with this id.
abbrev position : Uuid → List MlModel → ℕ
position i [] = 0
position i (m ∷ ms) = let rest = position i ms in if m.id == i then 0 else suc rest

position-length :
    (i : Uuid) (ms : List MlModel) (m : MlModel)
    → find (is_model i) ms ≡ some m
    → position i ms < length ms
position-length i [] m e = absurd (ground arith)
position-length i (n ∷ ms) m e = elim (Bool-cases (n.id == i)) [
  | inl at ↦ rw at (omega arith)
  | inr off ↦ let rest = position-length i ms m (if-false _ _ _ off e) in rw off (omega arith)
]

-- The parent of a row is among the ids seen before, or at an earlier place.
abbrev Follows : List Uuid → List MlModel → MlModel → Type 0
Follows seen ms m =
    (p : Uuid)
    → m.parent_model_id ≡ some p
    → (has p seen ≡ true) ⊎ (position p ms < position m.id ms)

IsGrown-apart :
    (i : Uuid) (seen : List Uuid) (ms : List MlModel)
    → has i seen ≡ true
    → IsGrown seen ms
    → All (λ m. (i == m.id) ≡ false) ms
IsGrown-apart i seen [] h g = tt
IsGrown-apart i seen (m ∷ ms) h (apart, before, g) =
    (differs seen h apart, IsGrown-apart i (m.id ∷ seen) ms (ground arith) g)
  where
    differs : (js : List Uuid) → has i js ≡ true → has m.id js ≡ false → (i == m.id) ≡ false
    differs [] h k = absurd (ground arith)
    differs (j ∷ js) h k = elim (Bool-cases (j == i)) [
      | inl at ↦ ground arith
      | inr off ↦ differs js (ground arith) (ground arith)
    ]

-- A row in front of those seen after it.
Follows-cons :
    (n : MlModel) (seen : List Uuid) (ms : List MlModel) (m : MlModel)
    → (n.id == m.id) ≡ false
    → Follows (n.id ∷ seen) ms m
    → Follows seen (n ∷ ms) m
Follows-cons n seen ms m off follows p e = elim (Bool-cases (n.id == p)) [
  | inl at ↦ inr (rw (at, off) (omega arith))
  | inr other ↦ elim (follows p e) [
    | inl h ↦ inl (ground arith)
    | inr less ↦ inr (rw (other, off) (omega arith))
  ]
]

All-Follows :
    (n : MlModel) (seen : List Uuid) (ms rest : List MlModel)
    → All (λ m. (n.id == m.id) ≡ false) rest
    → All (Follows (n.id ∷ seen) ms) rest
    → All (Follows seen (n ∷ ms)) rest
All-Follows n seen ms [] h k = tt
All-Follows n seen ms (m ∷ rest) (h, hs) (k, ks) =
    (Follows-cons n seen ms m h k, All-Follows n seen ms rest hs ks)

IsGrown-Follows :
    (seen : List Uuid) (ms : List MlModel) → IsGrown seen ms → All (Follows seen ms) ms
IsGrown-Follows seen [] g = tt
IsGrown-Follows seen (m ∷ ms) (apart, before, g) = (
  (λ p e. inl (before p e)),
  All-Follows m seen ms ms (IsGrown-apart m.id (m.id ∷ seen) ms (ground arith) g)
      (IsGrown-Follows (m.id ∷ seen) ms g),
)

find-All :
    (P : MlModel → Type 0) (q : MlModel → Bool) (ms : List MlModel) (m : MlModel)
    → All P ms
    → find q ms ≡ some m
    → P m
find-All P q [] m h e = absurd (ground arith)
find-All P q (n ∷ ms) m (h, hs) e = elim (Bool-cases (q n)) [
  | inl at ↦ let same : n ≡ m = cc in subst P same h
  | inr off ↦ find-All P q ms m hs (if-false _ _ _ off e)
]

module _ (models : List MlModel) (grown : All (Follows [] models) models) where
  -- A row of the table whose place is below the bound.
  abbrev IsBelow : ℕ → MlModel → Type 0
  IsBelow n m = (position m.id models < n) × Follows [] models m

  found-IsBelow :
      (n : ℕ) (i : Uuid) (m : MlModel)
      → find (is_model i) models ≡ some m
      → position i models < n
      → IsBelow n m
  found-IsBelow n i m e h = (
    subst (λ k. position k models < n) (sym (find-id i models m e)) h,
    find-All (Follows [] models) (is_model i) models m grown e,
  )

  parent-IsBelow :
      (n : ℕ) (m q : MlModel) (parent : Option Uuid)
      → IsBelow (suc n) m
      → m.parent_model_id ≡ parent
      → find_parent parent models ≡ some q
      → IsBelow n q
  parent-IsBelow n m q none h e f = absurd (ground arith)
  parent-IsBelow n m q (some p) (lt, follows) e f = elim (follows p e) [
    | inl seen ↦ absurd (ground arith)
    | inr less ↦ found-IsBelow n p q f (omega arith)
  ]

  ancestors-returns :
      (n : ℕ) (o : Option MlModel)
      → ((m : MlModel) → o ≡ some m → IsBelow n m)
      → (ms : List MlModel) × ((ancestors n models o ≡ some ms) × IsLineage models o ms)
  unfolding ancestors
  ancestors-returns n none h = ([], (refl, tt))
  ancestors-returns zero (some m) h = absurd (let (lt, below) = h m refl in ground arith)
  ancestors-returns (suc n) (some m) h =
      let (ms, (found, chain)) =
        ancestors-returns n (find_parent m.parent_model_id models)
          (λ q e. parent-IsBelow n m q m.parent_model_id (h m refl) refl e) in
      (m ∷ ms, (rw found refl, (refl, chain)))

module _ {F : Type 0} ⦃num : Number F⦄ (research : MlResearch) where
  -- After any models stored without a parent, retrainings, drift observations and promotions,
  -- whether they return or raise, on a table of models that was empty, and with any ids for the
  -- new rows, the lineage of a model of the table ends within as many rounds as the table has
  -- rows, and each model of it is followed by its parent.
  pub ancestors-IsLineage :
      (os : List (ModelOperation F)) (s : ModelStore) (i : Uuid) (m : MlModel)
      → s.models ≡ []
      → let models = (perform_all research os s).models in
        find (is_model i) models ≡ some m
        → (ms : List MlModel) × (ancestors (length models) models (some m) ≡ some ms)
          × IsLineage models (some m) ms
  ancestors-IsLineage os s i m empty found =
      let models = (perform_all research os s).models in
      let grown : All (Follows [] models) models =
        IsGrown-Follows [] models
          (perform_all-Grown research os s (subst (IsGrown []) (sym empty) tt)) in
      let (ms, (e, chain)) = ancestors-returns models grown (length models) (some m) λ q same.
        subst (IsBelow models grown (length models)) (some-injective same) (
          found-IsBelow models grown (length models) i m found
            (position-length i models m found)) in
      (ms, e, chain)
