-- ===== src/Campaigns/Optimization/Variants.antt =====
-- What the variants of parameters and the plan of a campaign are (app/campaigns/optimization.py,
-- app/campaigns/service.py).
use mercury_trading.Base.{
  ℕ, zero, suc, ◌-◌, ◌≡◌, ◌≤◌, refl, sym, ap, ◌∙◌, true, false, Option, none, some, List, [], ◌∷◌,
  map, any, take, length, String, str_eq, ok, ok-injective, raise_if, >>=-eq-ok, Bool-cases, inl,
  inr, All, All-append, arith, subst,
}
use mercury_trading.Campaigns.Optimization.Space.{
  Values, ParameterDefinition, Constraint, ParameterSpace, RejectionReason, is_empty, repeats,
  no_parameters, repeated_name, empty_parameter, Parameters, new_space, rejection_reasons, allowed,
  assignments, candidates,
}
use mercury_trading.Campaigns.Optimization.Sampling.{
  Method, grid, random, bayesian, other_method, Sampler, at, spread, diverse_candidates, asked,
  parameter_hash, unique, search_with, optuna_search, variants_of, generate_parameter_variants,
}

module _ {A : Type 0} (P : A → Type 0) where
  pub take-All : (n : ℕ) (xs : List A) → All P xs → All P (take n xs)
  take-All zero xs h = tt
  take-All (suc n) [] h = tt
  take-All (suc n) (x ∷ xs) h = (h.0, take-All n xs h.1)

pub length-take-le : {A : Type 0} (n : ℕ) (xs : List A) → length (take n xs) ≤ n
length-take-le zero xs = omega arith
length-take-le (suc n) [] = omega arith
length-take-le (suc n) (x ∷ xs) = omega (arith, length-take-le n xs)

module _ {V : Type 0} (P : Parameters V → Type 0) where
  at-All : (i : ℕ) (xs : List (Parameters V)) → All P xs → All P (at i xs)
  at-All i [] h = tt
  at-All zero (x ∷ xs) h = (h.0, tt)
  at-All (suc i) (x ∷ xs) h = at-All i xs h.1

  spread-All :
      (from n steps : ℕ) (xs : List (Parameters V)) → All P xs → All P (spread from n steps xs)
  spread-All from zero steps xs h = tt
  spread-All from (suc n) steps xs h =
      All-append P (at _ xs) (spread (suc from) n steps xs) (at-All _ xs h)
        (spread-All (suc from) n steps xs h)

  diverse-All : (xs : List (Parameters V)) (n : ℕ) → All P xs → All P (diverse_candidates xs n)
  unfolding diverse_candidates
  diverse-All xs n h = ground (arith, take-All P 1 xs h, spread-All 0 n (n - 1) xs h)

empty-eq : (rs : List RejectionReason) → is_empty rs ≡ true → rs ≡ []
empty-eq [] h = refl
empty-eq (r ∷ rs) h = absurd (ground arith)

module _ {V : Type 0} ⦃vals : Values V⦄ where
  -- No reason to reject these parameters.
  abbrev pub IsAllowed : List Constraint → Parameters V → Type 0
  IsAllowed rules ps = rejection_reasons rules ps ≡ ok []

  allowed-All :
      (rules : List Constraint) (items kept : List (Parameters V))
      → allowed rules items ≡ ok kept
      → All (IsAllowed rules) kept
  unfolding allowed
  allowed-All rules [] kept h = subst (All (IsAllowed rules)) (ok-injective h) tt
  allowed-All rules (ps ∷ items) kept h =
      let (reasons, found, later) = >>=-eq-ok (rejection_reasons rules ps) _ h in
      let (rest, kept_rest, last) = >>=-eq-ok (allowed rules items) _ later in
      let others = allowed-All rules items rest kept_rest in
      subst (All (IsAllowed rules)) (ok-injective last) (elim (Bool-cases (is_empty reasons)) [
        | inl empty ↦ rw empty (found ∙ ap ok (empty-eq reasons empty), others)
        | inr reasoned ↦ rw reasoned others
      ])

  new_space-constraints :
      (definitions : List (ParameterDefinition V)) (rules : List Constraint)
      (space : ParameterSpace V)
      → new_space definitions rules ≡ ok space
      → space.constraints ≡ rules
  unfolding new_space
  new_space-constraints definitions rules space h =
      let (u, p, h1) = >>=-eq-ok (raise_if (is_empty definitions) no_parameters) _ h in
      let (v, q, h2) =
        >>=-eq-ok (raise_if (repeats (map (λ d. d.name) definitions)) repeated_name) _ h1 in
      let (w, r, h3) =
        >>=-eq-ok (raise_if (any (λ d. is_empty d.values) definitions) empty_parameter) _ h2 in
      sym (ap (λ s. s.constraints) (ok-injective h3))

  -- The hashes are not among those seen, and differ from one another.
  abbrev pub IsDistinct : List String → List (Parameters V) → Type 0
  IsDistinct seen [] = Unit
  IsDistinct seen (ps ∷ items) =
      (any (str_eq (parameter_hash ps)) seen ≡ false) × IsDistinct (parameter_hash ps ∷ seen) items

  unique-IsDistinct :
      (items : List (Parameters V)) (seen : List String) → IsDistinct seen (unique seen items)
  unfolding unique
  unique-IsDistinct [] seen = tt
  unique-IsDistinct (ps ∷ items) seen = elim (Bool-cases (any (str_eq (parameter_hash ps)) seen)) [
    | inl again ↦ rw again (unique-IsDistinct items seen)
    | inr new ↦ rw new (new, unique-IsDistinct items (parameter_hash ps ∷ seen))
  ]

  take-IsDistinct :
      (n : ℕ) (items : List (Parameters V)) (seen : List String)
      → IsDistinct seen items
      → IsDistinct seen (take n items)
  take-IsDistinct zero items seen h = tt
  take-IsDistinct (suc n) [] seen h = tt
  take-IsDistinct (suc n) (ps ∷ items) seen h = (h.0, take-IsDistinct n items _ h.1)

  unique-All :
      (P : Parameters V → Type 0) (items : List (Parameters V)) (seen : List String)
      → All P items
      → All P (unique seen items)
  unfolding unique
  unique-All P [] seen h = tt
  unique-All P (ps ∷ items) seen h = elim (Bool-cases (any (str_eq (parameter_hash ps)) seen)) [
    | inl again ↦ rw again (unique-All P items seen h.1)
    | inr new ↦ rw new (h.0, unique-All P items (parameter_hash ps ∷ seen) h.1)
  ]

  -- What is documented of `random.Random.shuffle`: the list holds the same elements.
  abbrev pub KeepsElements : Sampler V → Type 1
  KeepsElements sampler =
      (P : Parameters V → Type 0) (seed : ℕ) (items : List (Parameters V))
      → All P items
      → All P (sampler.shuffle seed items)

  module _ (sampler : Sampler V) (shuffles : KeepsElements sampler) where
    optuna_search-All :
        (space : ParameterSpace V) (n seed : ℕ) (found : List (Parameters V))
        → optuna_search sampler space n seed ≡ ok found
        → All (IsAllowed space.constraints) found
    unfolding optuna_search candidates
    optuna_search-All space n seed found h = go sampler.propose h
      where
        go :
            (o : Option (ParameterSpace V → ℕ → ℕ → ℕ → Parameters V))
            → search_with sampler o space n seed ≡ ok found
            → All (IsAllowed space.constraints) found
        go (some study) h = allowed-All space.constraints (asked (study space n seed) 0 n) found h
        go none h =
            let (items, kept, last) = >>=-eq-ok (candidates space) _ h in
            subst (All (IsAllowed space.constraints)) (ok-injective last) (
              diverse-All (IsAllowed space.constraints) items n
                (allowed-All space.constraints (assignments space.definitions) items kept))

    variants_of-All :
        (method : Method) (space : ParameterSpace V) (items : List (Parameters V)) (n seed : ℕ)
        (found : List (Parameters V))
        → All (IsAllowed space.constraints) items
        → variants_of sampler method space items n seed ≡ ok found
        → All (IsAllowed space.constraints) found
    variants_of-All grid space items n seed found h e =
        subst (All (IsAllowed space.constraints)) (ok-injective e) h
    variants_of-All random space items n seed found h e =
        subst (All (IsAllowed space.constraints)) (ok-injective e)
          (shuffles (IsAllowed space.constraints) seed items h)
    variants_of-All bayesian space items n seed found h e = optuna_search-All space n seed found e
    variants_of-All other_method space items n seed found h e = absurd (ground arith)

    -- For a shuffle that keeps the elements, and whatever Optuna proposes: variants that are
    -- generated have no reason to be rejected, differ in their hashes, and are at most as many as
    -- asked for.
    pub generate-IsAllowed :
        (definitions : List (ParameterDefinition V)) (rules : List Constraint) (method : Method)
        (n seed : ℕ) (variants : List (Parameters V))
        → generate_parameter_variants sampler definitions rules method n seed ≡ ok variants
        → All (IsAllowed rules) variants × IsDistinct [] variants × (length variants ≤ n)
    unfolding generate_parameter_variants new_space candidates
    generate-IsAllowed definitions rules method n seed variants h =
        let (space, made, h1) = >>=-eq-ok (new_space definitions rules) _ h in
        let (items, kept, h2) = >>=-eq-ok (candidates space) _ h1 in
        let (found, sampled, h3) = >>=-eq-ok (variants_of sampler method space items n seed) _ h2 in
        let ok_items = allowed-All space.constraints (assignments space.definitions) items kept in
        let ok_found = variants_of-All method space items n seed found ok_items sampled in
        let ok_rules =
          subst (λ r. All (IsAllowed r) found) (new_space-constraints definitions rules space made)
            ok_found in
        let result = unique [] found in
        subst (λ vs. All (IsAllowed rules) vs × IsDistinct [] vs × (length vs ≤ n))
          (ok-injective h3)
          (
            take-All (IsAllowed rules) n result (unique-All (IsAllowed rules) found [] ok_rules),
            take-IsDistinct n result [] (unique-IsDistinct found []),
            length-take-le n result,
          )
