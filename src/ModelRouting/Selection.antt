-- ===== src/ModelRouting/Selection.antt =====
-- The model that is selected is the best of those allowed (app/model_routing/service.py).
use mercury_trading.Base.{
  ◌≡◌, refl, Bool, true, false, ◌⊎◌, Option, List, [], ◌∷◌, keep, All, All-keep, All-map_of, subst,
  ok-injective, Bool-cases, inl, inr, arith, if◌then◌else◌, ok,
}
use mercury_trading.Base.Int.{ℤ}
use mercury_trading.PaperTrading.Number.{Number, IsOrdered}
use mercury_trading.ModelRouting.Defs.{
  ModelCapability, ModelBenchmark, RoutingRequest, RoutingDecision, suits, budget_allows, score,
  best_of, utility_of, choose, select,
}

keep-passes : {A : Type 0} (p : A → Bool) (xs : List A) → All (λ x. p x ≡ true) (keep p xs)
keep-passes p [] = tt
keep-passes p (x ∷ xs) = elim (Bool-cases (p x)) [
  | inl at ↦ rw at (at, keep-passes p xs)
  | inr off ↦ rw off (keep-passes p xs)
]

-- What holds of the elements kept holds of all that pass.
keep-All :
    {A : Type 0} (P : A → Type 0) (p : A → Bool) (xs : List A)
    → All P (keep p xs)
    → All (λ x. p x ≡ true → P x) xs
keep-All P p [] h = tt
keep-All P p (x ∷ xs) h = elim (Bool-cases (p x)) [
  | inl at ↦
      let (first, rest) : All P (x ∷ keep p xs) = simp at at h in
      ((λ t. first), keep-All P p xs rest)
  | inr off ↦ ((λ t. absurd (ground arith)), keep-All P p xs (simp off at h))
]

module _ {F : Type 0} ⦃num : Number F⦄ {A : Type 0} (key : A → F) where
  best_of-All : (P : A → Type 0) (a : A) (xs : List A) → P a → All P xs → P (best_of key a xs)
  unfolding best_of
  best_of-All P a [] h hs = h
  best_of-All P a (x ∷ xs) h (hx, hs) = elim (Bool-cases (num.lt (key a) (key x))) [
    | inl at ↦ rw at (best_of-All P x xs hx hs)
    | inr off ↦ rw off (best_of-All P a xs h hs)
  ]

  module _ (ordered : IsOrdered F) where
    le-of-not_lt : (a b : F) → num.lt a b ≡ false → num.le b a ≡ true
    le-of-not_lt a b h = let e = ordered.lt-eq-not-le a b in ground arith

    le-of-lt : (a b : F) → num.lt a b ≡ true → num.le a b ≡ true
    le-of-lt a b h = elim (ordered.le_total a b) [
      | inl fine ↦ fine
      | inr back ↦ let e = ordered.lt-eq-not-le a b in absurd (ground arith)
    ]

    picked :
        (a x : A)
        → (num.le (key a) (key (if num.lt (key a) (key x) then x else a)) ≡ true)
          × (num.le (key x) (key (if num.lt (key a) (key x) then x else a)) ≡ true)
    picked a x = elim (Bool-cases (num.lt (key a) (key x))) [
      | inl at ↦ rw at (le-of-lt _ _ at, ordered.le_refl (key x))
      | inr off ↦ rw off (ordered.le_refl (key a), le-of-not_lt _ _ off)
    ]

    best_of-largest :
        (a : A) (xs : List A)
        → (num.le (key a) (key (best_of key a xs)) ≡ true)
          × All (λ x. num.le (key x) (key (best_of key a xs)) ≡ true) xs
    unfolding best_of
    best_of-largest a [] = (ordered.le_refl (key a), tt)
    best_of-largest a (x ∷ xs) =
        let b = if num.lt (key a) (key x) then x else a in
        let (from_a, from_x) = picked a x in
        let (first, rest) = best_of-largest b xs in
        (
          ordered.le_trans (key a) (key b) _ from_a first,
          (ordered.le_trans (key x) (key b) _ from_x first, rest),
        )

module _ {F : Type 0} ⦃num : Number F⦄ where
  -- The chosen model suits the task, and no model that suits it, and keeps to the budget, is more useful. Only
  -- where none keeps to it, and the task is not critical, the choice may exceed it.
  pub record IsSelected (models : List (ModelCapability F)) (bs : List (ModelBenchmark F))
      (request : RoutingRequest F) (d : RoutingDecision F) : Type 0 where
    pub suitable : suits request d.model ≡ true
    pub scored : d.score_components ≡ score bs request d.model
    pub best :
        All
          (λ m.
            suits request m ≡ true
            → budget_allows request m ≡ true
            → num.le (utility_of bs request m) (utility_of bs request d.model) ≡ true)
          models
    pub over_budget :
        budget_allows request d.model ≡ false
        → (request.critical ≡ false)
          × ((d.downgraded_for_budget ≡ true)
              × All
                  (λ m.
                    suits request m ≡ true
                    → (budget_allows request m ≡ false)
                      × (num.le (utility_of bs request m) (utility_of bs request d.model) ≡ true))
                  models)

keep-none : {A : Type 0} (p : A → Bool) (xs : List A) → keep p xs ≡ [] → All (λ x. p x ≡ false) xs
keep-none p [] e = tt
keep-none p (x ∷ xs) e = elim (Bool-cases (p x)) [
  | inl at ↦ absurd (let e' : (x ∷ keep p xs) ≡ [] = simp at at e in ground arith)
  | inr off ↦ (off, keep-none p xs (simp off at e))
]

All-both :
    {A : Type 0} (P Q : A → Type 0) (xs : List A) → All P xs → All Q xs → All (λ x. P x × Q x) xs
All-both P Q [] h k = tt
All-both P Q (x ∷ xs) (h, hs) (k, ks) = ((h, k), All-both P Q xs hs ks)

module _ {F : Type 0} ⦃num : Number F⦄ (ordered : IsOrdered F) (bs : List (ModelBenchmark F))
    (request : RoutingRequest F) where
  abbrev IsLargest : RoutingDecision F → List (ModelCapability F) → Type 0
  IsLargest d = All λ m. num.le (utility_of bs request m) (utility_of bs request d.model) ≡ true

  -- The two pools that the choice is made from.
  abbrev IsChosen : RoutingDecision F → List (ModelCapability F) → List (ModelCapability F) → Type 0
  IsChosen d cs fs =
      (suits request d.model ≡ true)
      × ((d.score_components ≡ score bs request d.model)
          × (((budget_allows request d.model ≡ true) × IsLargest d fs)
              ⊎ ((fs ≡ [])
                  × ((request.critical ≡ false)
                      × ((d.downgraded_for_budget ≡ true) × IsLargest d cs)))))

  choose-IsChosen :
      (cs fs : List (ModelCapability F)) (d : RoutingDecision F)
      → All (λ m. suits request m ≡ true) cs
      → All (λ m. suits request m ≡ true) fs
      → All (λ m. budget_allows request m ≡ true) fs
      → choose bs request cs fs ≡ ok d
      → IsChosen d cs fs
  unfolding choose
  choose-IsChosen [] fs d hc hf hb e = absurd (ground arith)
  choose-IsChosen (m ∷ ms) (f ∷ fs) d hc (hf, hfs) (hb, hbs) e =
      subst (λ d. IsChosen d (m ∷ ms) (f ∷ fs)) (ok-injective e)
        (
          best_of-All (utility_of bs request) (λ m. suits request m ≡ true) f fs hf hfs,
          (
            refl,
            inl (
              best_of-All (utility_of bs request) (λ m. budget_allows request m ≡ true) f fs hb hbs,
              best_of-largest (utility_of bs request) ordered f fs,
            ),
          ),
        )
  choose-IsChosen (m ∷ ms) [] d (hc, hcs) hf hb e = elim (Bool-cases request.critical) [
    | inl grave ↦ absurd (let e' = simp grave at e in ground arith)
    | inr light ↦
        let e' = simp light at e in
        subst (λ d. IsChosen d (m ∷ ms) []) (ok-injective e')
          (
            best_of-All (utility_of bs request) (λ m. suits request m ≡ true) m ms hc hcs,
            (
              refl,
              inr (refl, (light, (refl, best_of-largest (utility_of bs request) ordered m ms))),
            ),
          )
  ]

  chosen-IsSelected :
      (models : List (ModelCapability F)) (d : RoutingDecision F)
      → select models bs request ≡ ok d
      → IsSelected models bs request d
  unfolding select
  chosen-IsSelected models d e =
      let candidates = keep (suits request) models in
      let suitable = keep-passes (suits request) models in
      let (fits, (scored, ways)) =
        choose-IsChosen candidates (keep (budget_allows request) candidates) d suitable
          (All-keep _ (budget_allows request) candidates suitable)
          (keep-passes (budget_allows request) candidates) e in
      elim ways [
        | inl (within, largest) ↦ record {
          suitable = fits;
          scored = scored;
          best =
              keep-All _ (suits request) models
                (keep-All _ (budget_allows request) candidates largest);
          over_budget = λ over. absurd (ground arith);
        }
        | inr (empty, (light, (down, largest))) ↦
            let all = keep-All _ (suits request) models (
              All-both _ _ candidates (keep-none (budget_allows request) candidates empty)
                largest) in
            record {
              suitable = fits;
              scored = scored;
              best =
                  All-map_of _ _ (λ m h t b. absurd (let (over, le) = h t in ground arith)) models
                    all;
              over_budget = λ over. (light, (down, all));
            }
      ]

  -- For ordered numbers, a selection that returns chose a model that suits the task, with its
  -- score, such that no model that suits and keeps to the budget of cost and calls is more useful;
  -- only if none keeps to that budget and the task is not critical is the choice over it, is then
  -- marked as downgraded, and is the most useful of all that suit. The tokens left play no part:
  -- with any number of them, or none given, the selection is the same.
  pub select-IsSelected :
      (models : List (ModelCapability F)) (d : RoutingDecision F)
      → select models bs request ≡ ok d
      → IsSelected models bs request d
        × ((tokens : Option ℤ)
            → select models bs (record request { remaining_tokens = tokens }) ≡ ok d)
  unfolding select choose score suits budget_allows
  select-IsSelected models d e = (chosen-IsSelected models d e, (λ tokens. e))
