-- ===== src/Campaigns/Optimization/Sampling.antt =====
-- `generate_parameter_variants` (app/campaigns/optimization.py). The shuffle of `random.Random` and the
-- proposals of Optuna, where it is installed, are a parameter.
use mercury_trading.Base.{
  ℕ, zero, suc, ◌+◌, ◌-◌, ◌*◌, ◌/◌, ◌%◌, Option, none, some, List, [], ◌∷◌, ◌++◌, any, take, length,
  ltb, leb, ◌==◌, String, str_eq, Result, ok, err, ◌>>=◌, if◌then◌else◌,
}
use mercury_trading.Base.Texts.{text_le}
use mercury_trading.Campaigns.Optimization.Space.{
  Values, SpaceError, unknown_method, ParameterDefinition, Constraint, ParameterSpace, new_space,
  Parameters, allowed, candidates,
}

pub data Method : Type 0 where
  grid random bayesian other_method : Method

-- `shuffle seed xs`; `propose space max_variants seed n` is the n-th proposal of a study.
pub record Sampler (V : Type 0) : Type 0 where
  pub shuffle : ℕ → List (Parameters V) → List (Parameters V)
  pub propose : Option (ParameterSpace V → ℕ → ℕ → ℕ → Parameters V)

-- `round(a / b)`, which rounds a half to the even side.
unfoldable pub round_ratio : ℕ → ℕ → ℕ
round_ratio a b =
    let q = a / b in
    let r = a % b in
    if ltb (r + r) b then q else if ltb b (r + r) then suc q else if q % 2 == 0 then q else suc q

module _ {V : Type 0} where
  -- `xs[i]`, where it is there
  abbrev pub at : ℕ → List (Parameters V) → List (Parameters V)
  at i [] = []
  at zero (x ∷ xs) = x ∷ []
  at (suc i) (x ∷ xs) = at i xs

  -- The elements from an index on, as many as asked for.
  abbrev pub spread : ℕ → ℕ → ℕ → List (Parameters V) → List (Parameters V)
  spread from zero steps items = []
  spread from (suc n) steps items =
      at (round_ratio (from * (length items - 1)) steps) items ++ spread (suc from) n steps items

  unfoldable pub diverse_candidates : List (Parameters V) → ℕ → List (Parameters V)
  unfolding round_ratio
  diverse_candidates items max_variants =
      if leb (length items) max_variants
      then items
      else if max_variants == 1
      then take 1 items
      else spread 0 max_variants (max_variants - 1) items

  -- The proposals from a number on.
  abbrev pub asked : (ℕ → Parameters V) → ℕ → ℕ → List (Parameters V)
  asked study from zero = []
  asked study from (suc n) = study from ∷ asked study (suc from) n

module _ {V : Type 0} where
  -- An item that is put in the order of its name.
  abbrev insert_item : String × V → Parameters V → Parameters V
  insert_item x [] = x ∷ []
  insert_item x (y ∷ ys) =
      let later = y ∷ insert_item x ys in if text_le x.0 y.0 then x ∷ y ∷ ys else later

  abbrev sort_items : Parameters V → Parameters V
  sort_items [] = []
  sort_items (x ∷ xs) = insert_item x (sort_items xs)

module _ {V : Type 0} ⦃vals : Values V⦄ where
  -- `parameter_hash`
  unfoldable pub parameter_hash : Parameters V → String
  parameter_hash ps = vals.digest (sort_items ps)

  -- `_unique`, with the keys that were seen
  unfoldable pub unique : List String → List (Parameters V) → List (Parameters V)
  unfolding parameter_hash
  unique seen [] = []
  unique seen (ps ∷ items) =
      let key = parameter_hash ps in
      let rest = unique (key ∷ seen) items in
      let others = unique seen items in if any (str_eq key) seen then others else ps ∷ rest

  module _ (sampler : Sampler V) where
    abbrev pub search_with :
        Option (ParameterSpace V → ℕ → ℕ → ℕ → Parameters V)
        → ParameterSpace V
        → ℕ
        → ℕ
        → Result SpaceError (List (Parameters V))
    search_with none space max_variants seed = do
      items ← candidates space
      ok (diverse_candidates items max_variants)
    search_with (some study) space max_variants seed =
        allowed space.constraints (asked (study space max_variants seed) 0 max_variants)

    -- `_optuna_search`
    unfoldable pub optuna_search :
        ParameterSpace V → ℕ → ℕ → Result SpaceError (List (Parameters V))
    unfolding diverse_candidates allowed
    optuna_search space max_variants seed = search_with sampler.propose space max_variants seed

    abbrev pub variants_of :
        Method
        → ParameterSpace V
        → List (Parameters V)
        → ℕ
        → ℕ
        → Result SpaceError (List (Parameters V))
    variants_of grid space items max_variants seed = ok items
    variants_of random space items max_variants seed = ok (sampler.shuffle seed items)
    variants_of bayesian space items max_variants seed = optuna_search space max_variants seed
    variants_of other_method space items max_variants seed = err unknown_method

    unfoldable pub generate_parameter_variants :
        List (ParameterDefinition V)
        → List Constraint
        → Method
        → ℕ
        → ℕ
        → Result SpaceError (List (Parameters V))
    unfolding unique optuna_search candidates
    generate_parameter_variants definitions constraints method max_variants seed = do
      space ← new_space definitions constraints
      items ← candidates space
      variants ← variants_of method space items max_variants seed
      ok (take max_variants (unique [] variants))
