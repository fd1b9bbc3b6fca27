-- ===== src/Campaigns/Optimization/Space.antt =====
-- `ParameterSpace` (app/campaigns/optimization.py). What Python does with the values is an interface: `int(x)`,
-- `<` and `<=`, which raise on values that do not fit, and the hash of the sorted items.
use mercury_trading.Base.{
  Bool, true, false, ◌||◌, Option, none, some, List, [], ◌∷◌, ◌++◌, map, any, String, str_eq,
  Result, ok, ◌>>=◌, ◌>>◌, raise_if, if◌then◌else◌,
}
use mercury_trading.Base.Int.{ℤ, leb_ℤ}

pub data ParameterKind : Type 0 where
  integer float categorical boolean : ParameterKind

-- The `ValueError`s, and what Python raises on a value.
pub data SpaceError : Type 0 where
  no_parameters repeated_name empty_parameter unknown_method bad_value : SpaceError

pub record Values (V : Type 0) : Type 0 where
  pub to_int : V → Result SpaceError ℤ
  pub less : V → V → Result SpaceError Bool
  pub less_equal : V → V → Result SpaceError Bool
  pub digest : List (String × V) → String

pub record ParameterDefinition (V : Type 0) : Type 0 where
  pub name : String
  pub kind : ParameterKind
  pub values : List V

pub data Operator : Type 0 where
  below at_most : Operator
  other_operator : Operator

pub record Constraint : Type 0 where
  pub left : String
  pub right : String
  pub operator : Operator

pub record ParameterSpace (V : Type 0) : Type 0 where
  pub definitions : List (ParameterDefinition V)
  pub constraints : List Constraint

pub data RejectionReason : Type 0 where
  short_not_less unknown_parameter bad_operator : RejectionReason
  not_less not_less_or_equal : String → String → RejectionReason

abbrev pub is_empty {ℓ} : {A : Type ℓ} → List A → Bool
is_empty [] = true
is_empty (x ∷ xs) = false

abbrev pub repeats : List String → Bool
repeats [] = false
repeats (x ∷ xs) = any (str_eq x) xs || repeats xs

abbrev pub Parameters : Type 0 → Type 0
Parameters V = List (String × V)

module _ {V : Type 0} where
  -- `__init__`
  unfoldable pub new_space :
      List (ParameterDefinition V) → List Constraint → Result SpaceError (ParameterSpace V)
  new_space definitions constraints = do
    raise_if (is_empty definitions) no_parameters
    raise_if (repeats (map (λ d. d.name) definitions)) repeated_name
    raise_if (any (λ d. is_empty d.values) definitions) empty_parameter
    ok (record { definitions = definitions; constraints = constraints })

  -- `parameters[name]`, where it is there
  unfoldable pub parameter_value : String → Parameters V → Option V
  parameter_value name [] = none
  parameter_value name ((n, v) ∷ ps) = if str_eq n name then some v else parameter_value name ps

  abbrev pub concat_map {κ} :
      {A : Type κ} → (A → List (Parameters V)) → List A → List (Parameters V)
  concat_map f [] = []
  concat_map f (x ∷ xs) = f x ++ concat_map f xs

  -- `dict(zip(names, values))` for each of `itertools.product`
  unfoldable pub assignments : List (ParameterDefinition V) → List (Parameters V)
  assignments [] = [] ∷ []
  assignments (d ∷ ds) = concat_map (λ v. map (λ ps. (d.name, v) ∷ ps) (assignments ds)) d.values

module _ {V : Type 0} ⦃vals : Values V⦄ where
  open vals use {to_int, less, less_equal}

  -- The reasons of one constraint, where both values are there.
  abbrev constraint_reasons : Constraint → V → V → Result SpaceError (List RejectionReason)
  constraint_reasons rule l r = compared rule.operator
    where
      compared : Operator → Result SpaceError (List RejectionReason)
      compared below = do
        holds ← less l r
        ok (if holds then [] else not_less rule.left rule.right ∷ [])
      compared at_most = do
        holds ← less_equal l r
        ok (if holds then [] else not_less_or_equal rule.left rule.right ∷ [])
      compared other_operator = ok (bad_operator ∷ [])

  abbrev both_reasons : Constraint → Option V → Option V → Result SpaceError (List RejectionReason)
  both_reasons rule (some l) (some r) = constraint_reasons rule l r
  both_reasons rule _ _ = ok (unknown_parameter ∷ [])

  unfoldable pub constraints_reasons :
      List Constraint → Parameters V → Result SpaceError (List RejectionReason)
  unfolding parameter_value
  constraints_reasons [] ps = ok []
  constraints_reasons (rule ∷ rules) ps = do
    first ← both_reasons rule (parameter_value rule.left ps) (parameter_value rule.right ps)
    others ← constraints_reasons rules ps
    ok (first ++ others)

  -- `int(short_window) >= int(long_window)`, where both are there.
  abbrev window_reasons : Option V → Option V → Result SpaceError (List RejectionReason)
  window_reasons (some s) (some l) = do
    short ← to_int s
    long ← to_int l
    ok (if leb_ℤ long short then short_not_less ∷ [] else [])
  window_reasons _ _ = ok []

  unfoldable pub rejection_reasons :
      List Constraint → Parameters V → Result SpaceError (List RejectionReason)
  unfolding parameter_value constraints_reasons
  rejection_reasons rules ps = do
    windows ← window_reasons (parameter_value "short_window" ps) (parameter_value "long_window" ps)
    others ← constraints_reasons rules ps
    ok (windows ++ others)

  -- `[item for item in items if not self.rejection_reasons(item)]`
  unfoldable pub allowed :
      List Constraint → List (Parameters V) → Result SpaceError (List (Parameters V))
  unfolding rejection_reasons
  allowed rules [] = ok []
  allowed rules (ps ∷ items) = do
    reasons ← rejection_reasons rules ps
    rest ← allowed rules items
    ok (if is_empty reasons then ps ∷ rest else rest)

  unfoldable pub candidates : ParameterSpace V → Result SpaceError (List (Parameters V))
  unfolding allowed assignments
  candidates space = allowed space.constraints (assignments space.definitions)
