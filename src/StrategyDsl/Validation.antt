-- ===== src/StrategyDsl/Validation.antt =====
-- `validate_strategy` and `complexity_score` (app/strategy_dsl/validation.py). A message is kept as what
-- it says and the place that it names.
use mercury_trading.Base.{
  ℕ, suc, ◌+◌, ◌*◌, Bool, true, false, ◌&&◌, Option, none, some, List, [], ◌∷◌, ◌++◌, length, any,
  leb, ltb, String, str_eq, if◌then◌else◌, Result, ok, err,
}
use mercury_trading.StrategyDsl.Syntax.{
  Operator, gt, gte, lt, lte, Condition, comparison, logical, Conditions, nil, cons, StrategySpec,
  same_condition,
}

pub data Place : Type 0 where
  entry exit : Place
  filter : ℕ → Place
  child : Place → ℕ → Place

pub data Side : Type 0 where
  left right : Side

pub data StrategyError : Type 0 where
  unknown_indicator : Place → Side → String → StrategyError
  self_comparison : Place → StrategyError
  identical_conditions window_order too_many_indicators too_complex too_many_bars : StrategyError

-- `name in spec.indicators` and `spec.indicators[name].window`
unfoldable pub window_of : String → List (String × ℕ) → Option ℕ
window_of name [] = none
window_of name ((k, w) ∷ d) = if str_eq k name then some w else window_of name d

abbrev pub is_known : List (String × ℕ) → String → Bool
is_known d name = any (λ i. str_eq i.0 name) d

abbrev pub error_when : Bool → StrategyError → List StrategyError
error_when true e = e ∷ []
error_when false e = []

abbrev pub error_unless : Bool → StrategyError → List StrategyError
error_unless true e = []
error_unless false e = e ∷ []

-- `_validate_condition`: the errors that it appends.
unfoldable mutual
  pub condition_errors : List (String × ℕ) → Place → Condition → List StrategyError
  condition_errors d p (comparison l op r) =
      error_unless (is_known d l) (unknown_indicator p left l)
      ++ (error_unless (is_known d r) (unknown_indicator p right r)
          ++ error_when (str_eq l r) (self_comparison p))
  condition_errors d p (logical k cs) = conditions_errors d p 0 cs

  pub conditions_errors : List (String × ℕ) → Place → ℕ → Conditions → List StrategyError
  conditions_errors d p index nil = []
  conditions_errors d p index (cons c cs) =
      condition_errors d (child p index) c ++ conditions_errors d p (suc index) cs

unfoldable mutual
  pub condition_complexity : Condition → ℕ
  condition_complexity (comparison l op r) = 1
  condition_complexity (logical k cs) = 1 + conditions_complexity cs

  pub conditions_complexity : Conditions → ℕ
  conditions_complexity nil = 0
  conditions_complexity (cons c cs) = condition_complexity c + conditions_complexity cs

abbrev is_above : Operator → Bool
is_above gt = true
is_above gte = true
is_above _ = false

abbrev is_below : Operator → Bool
is_below lt = true
is_below lte = true
is_below _ = false

-- `is_crossover`, with the two names compared.
unfoldable pub crossover : Condition → Condition → Option (String × String)
crossover (comparison l op r) (comparison l' op' r') =
    if str_eq l l' && str_eq r r' && is_above op && is_below op' then some (l, r) else none
crossover _ _ = none

abbrev pub not_ascending : Option ℕ → Option ℕ → Bool
not_ascending (some a) (some b) = leb b a
not_ascending _ _ = false

abbrev pub windows_inverted : List (String × ℕ) → Option (String × String) → Bool
windows_inverted d none = false
windows_inverted d (some (l, r)) = not_ascending (window_of l d) (window_of r d)

abbrev pub filters_complexity : List Condition → ℕ
filters_complexity [] = 0
filters_complexity (c ∷ cs) = condition_complexity c + filters_complexity cs

unfoldable pub filters_errors : List (String × ℕ) → ℕ → List Condition → List StrategyError
unfolding condition_errors
filters_errors d index [] = []
filters_errors d index (c ∷ cs) =
    condition_errors d (filter index) c ++ filters_errors d (suc index) cs

module _ {F : Type 0} where
  unfoldable pub complexity_score : StrategySpec F → ℕ
  unfolding condition_complexity
  complexity_score s =
      length s.indicators * 2
      + condition_complexity s.entry
      + condition_complexity s.exit
      + filters_complexity s.filters

  -- The errors of `validate_strategy`, in their order.
  unfoldable pub strategy_errors : StrategySpec F → List StrategyError
  unfolding filters_errors window_of crossover
  strategy_errors s =
      condition_errors s.indicators entry s.entry
      ++ (condition_errors s.indicators exit s.exit
          ++ (filters_errors s.indicators 0 s.filters
              ++ (error_when (same_condition s.entry s.exit) identical_conditions
                  ++ (error_when (windows_inverted s.indicators (crossover s.entry s.exit))
                        window_order
                      ++ (error_when
                            (ltb s.risk_constraints.max_indicator_count (length s.indicators))
                            too_many_indicators
                          ++ error_when
                              (ltb s.risk_constraints.max_rule_complexity (complexity_score s))
                              too_complex)))))

  abbrev pub accepted :
      StrategySpec F → List StrategyError → Result (List StrategyError) (StrategySpec F)
  accepted s [] = ok s
  accepted s (e ∷ es) = err (e ∷ es)

  unfoldable pub validate_strategy : StrategySpec F → Result (List StrategyError) (StrategySpec F)
  validate_strategy s = accepted s (strategy_errors s)
