-- ===== src/StrategyDsl/WellFormed.antt =====
-- What validation accepts (app/strategy_dsl/validation.py).
use mercury_trading.Base.{
  ℕ, suc, ◌≤◌, ◌<◌, ◌≡◌, ◌≢◌, ◌↔◌, refl, Bool, true, false, Option, none, some, List, [], ◌∷◌, ◌++◌,
  length, ltb, arith, All, String, str_eq, eq_iff, ok,
}
use mercury_trading.StrategyDsl.Syntax.{
  Condition, comparison, logical, Conditions, nil, cons, StrategySpec, same_condition,
  same_condition_iff,
}
use mercury_trading.StrategyDsl.Validation.{
  Place, entry, exit, filter, child, StrategyError, identical_conditions, window_order,
  too_many_indicators, too_complex, not_ascending, self_comparison, unknown_indicator, left, right,
  window_of, is_known, error_when, error_unless, condition_errors, conditions_errors,
  filters_errors, crossover, windows_inverted, complexity_score, strategy_errors, accepted,
  validate_strategy,
}

↔_trans {ℓ κ μ} : {A : Type ℓ} {B : Type κ} {C : Type μ} → A ↔ B → B ↔ C → A ↔ C
↔_trans (f, g) (h, k) = ((λ a. h (f a)), (λ c. g (k c)))

×_iff {ℓ κ μ ν} :
    {A : Type ℓ} {B : Type κ} {C : Type μ} {D : Type ν} → A ↔ B → C ↔ D → (A × C) ↔ (B × D)
×_iff (f, g) (h, k) = ((λ (a, c). (f a, h c)), (λ (b, d). (g b, k d)))

-- Every comparison of a condition is between two different indicators that are defined.
abbrev mutual
  pub IsScoped : List (String × ℕ) → Condition → Type 0
  IsScoped d (comparison l op r) = (is_known d l ≡ true) × ((is_known d r ≡ true) × (l ≢ r))
  IsScoped d (logical k cs) = AreScoped d cs

  pub AreScoped : List (String × ℕ) → Conditions → Type 0
  AreScoped d nil = Unit
  AreScoped d (cons c cs) = IsScoped d c × AreScoped d cs

-- The meaning of acceptance. A crossover, where entry and exit compare the same two indicators upwards and
-- downwards, has the shorter window first.
pub record IsWellFormed {F : Type 0} (s : StrategySpec F) : Type 0 where
  pub entry_scoped : IsScoped s.indicators s.entry
  pub exit_scoped : IsScoped s.indicators s.exit
  pub filters_scoped : All (IsScoped s.indicators) s.filters
  pub distinct : s.entry ≢ s.exit
  pub ascending :
      (l r : String) (a b : ℕ)
      → crossover s.entry s.exit ≡ some (l, r)
      → window_of l s.indicators ≡ some a
      → window_of r s.indicators ≡ some b
      → a < b
  pub indicators_few : length s.indicators ≤ s.risk_constraints.max_indicator_count
  pub rules_simple : complexity_score s ≤ s.risk_constraints.max_rule_complexity

append_nil {ℓ} : {A : Type ℓ} (xs ys : List A) → ((xs ++ ys) ≡ []) ↔ ((xs ≡ []) × (ys ≡ []))
append_nil [] ys = ((λ h. (refl, h)), (λ h. h.1))
append_nil (x ∷ xs) ys = ((λ h. absurd (ground arith)), (λ h. absurd (let e = h.0 in ground arith)))

-- No errors of two checks are no errors of each.
none_of_both {ℓ κ} :
    {A : Type 0} {P : Type ℓ} {Q : Type κ} (xs ys : List A)
    → (xs ≡ []) ↔ P
    → (ys ≡ []) ↔ Q
    → ((xs ++ ys) ≡ []) ↔ (P × Q)
none_of_both xs ys p q = ↔_trans (append_nil xs ys) (×_iff p q)

error_when_iff : (b : Bool) (e : StrategyError) → (error_when b e ≡ []) ↔ (b ≡ false)
error_when_iff true e = ground arith
error_when_iff false e = ground arith

when_iff {ℓ} :
    {P : Type ℓ} {b : Bool} (e : StrategyError) → (b ≡ false) ↔ P → (error_when b e ≡ []) ↔ P
when_iff {b = b} e p = ↔_trans (error_when_iff b e) p

error_unless_iff : (b : Bool) (e : StrategyError) → (error_unless b e ≡ []) ↔ (b ≡ true)
error_unless_iff true e = ground arith
error_unless_iff false e = ground arith

str_ne_iff : (a b : String) → (str_eq a b ≡ false) ↔ (a ≢ b)
str_ne_iff a b = ground (arith, eq_iff a b)

ne_iff : (a b : Condition) → (same_condition a b ≡ false) ↔ (a ≢ b)
ne_iff a b = ground (arith, same_condition_iff a b)

not_ltb_iff : (a b : ℕ) → (ltb a b ≡ false) ↔ (b ≤ a)
not_ltb_iff a b = ground arith

mutual
  unfolding condition_errors

  condition_errors_iff :
      (d : List (String × ℕ)) (p : Place) (c : Condition)
      → (condition_errors d p c ≡ []) ↔ IsScoped d c
  condition_errors_iff d p (comparison l op r) =
      none_of_both _ _ (error_unless_iff (is_known d l) (unknown_indicator p left l)) (
        none_of_both _ _ (error_unless_iff (is_known d r) (unknown_indicator p right r))
          (↔_trans (error_when_iff (str_eq l r) (self_comparison p)) (str_ne_iff l r)))
  condition_errors_iff d p (logical k cs) = conditions_errors_iff d p 0 cs

  conditions_errors_iff :
      (d : List (String × ℕ)) (p : Place) (i : ℕ) (cs : Conditions)
      → (conditions_errors d p i cs ≡ []) ↔ AreScoped d cs
  conditions_errors_iff d p i nil = ((λ h. tt), (λ h. refl))
  conditions_errors_iff d p i (cons c cs) =
      none_of_both _ _ (condition_errors_iff d (child p i) c) (conditions_errors_iff d p (suc i) cs)

filters_errors_iff :
    (d : List (String × ℕ)) (i : ℕ) (cs : List Condition)
    → (filters_errors d i cs ≡ []) ↔ All (IsScoped d) cs
unfolding filters_errors
filters_errors_iff d i [] = ((λ h. tt), (λ h. refl))
filters_errors_iff d i (c ∷ cs) =
    none_of_both _ _ (condition_errors_iff d (filter i) c) (filters_errors_iff d (suc i) cs)

-- The windows of these two names, where both have one, ascend.
abbrev IsAscending : List (String × ℕ) → Option (String × String) → Type 0
IsAscending d o =
    (l r : String) (a b : ℕ)
    → o ≡ some (l, r)
    → window_of l d ≡ some a
    → window_of r d ≡ some b
    → a < b

not_ascending_iff :
    (x y : Option ℕ) → (not_ascending x y ≡ false) ↔ ((a b : ℕ) → x ≡ some a → y ≡ some b → a < b)
not_ascending_iff none y = ((λ h a b p q. absurd (ground arith)), (λ h. refl))
not_ascending_iff (some x) none = ((λ h a b p q. absurd (ground arith)), (λ h. refl))
not_ascending_iff (some x) (some y) =
    ((λ h a b p q. ground arith), (λ h. let lt : x < y = h x y refl refl in ground arith))

windows_inverted_iff :
    (d : List (String × ℕ)) (o : Option (String × String))
    → (windows_inverted d o ≡ false) ↔ IsAscending d o
windows_inverted_iff d none = ((λ h l r a b p q t. absurd (ground arith)), (λ h. refl))
windows_inverted_iff d (some (k, m)) = (
  (λ h l r a b p q t.
      (not_ascending_iff (window_of k d) (window_of m d)).0 h a b (let e : k ≡ l = cc in rw e q)
        (let e : m ≡ r = cc in rw e t)),
  (λ h. (not_ascending_iff (window_of k d) (window_of m d)).1 (λ a b. h k m a b refl)),
)

module _ {F : Type 0} where
  accepted_iff : (s : StrategySpec F) (es : List StrategyError) → (accepted s es ≡ ok s) ↔ (es ≡ [])
  accepted_iff s [] = ((λ h. refl), (λ h. refl))
  accepted_iff s (e ∷ es) = ((λ h. absurd (ground arith)), (λ h. absurd (ground arith)))

  -- Validation accepts a strategy exactly if it is well formed: every comparison is between two
  -- different indicators that are defined, entry and exit differ, a crossover has the shorter
  -- window first, and the counts of indicators and rules are within the limits.
  pub validate_strategy_iff : (s : StrategySpec F) → (validate_strategy s ≡ ok s) ↔ IsWellFormed s
  unfolding validate_strategy strategy_errors
  validate_strategy_iff s =
      let d = s.indicators in
      let found = none_of_both _ _ (condition_errors_iff d entry s.entry) (
        none_of_both _ _ (condition_errors_iff d exit s.exit) (
          none_of_both _ _ (filters_errors_iff d 0 s.filters) (
            none_of_both _ _ (when_iff identical_conditions (ne_iff s.entry s.exit)) (
              none_of_both _ _
                (when_iff window_order (windows_inverted_iff d (crossover s.entry s.exit)))
                (none_of_both _ _
                  (when_iff too_many_indicators
                    (not_ltb_iff s.risk_constraints.max_indicator_count (length d)))
                  (when_iff too_complex (
                    not_ltb_iff s.risk_constraints.max_rule_complexity
                      (complexity_score s)))))))) in
      (
        (λ h.
            let (a, (b, (f, (n, (w, (i, r)))))) =
              found.0 ((accepted_iff s (strategy_errors s)).0 h) in
            record {
              entry_scoped = a;
              exit_scoped = b;
              filters_scoped = f;
              distinct = n;
              ascending = w;
              indicators_few = i;
              rules_simple = r;
            }),
        (λ v. (accepted_iff s (strategy_errors s)).1 (
            found.1 (
              v.entry_scoped,
              (
                v.exit_scoped,
                (v.filters_scoped, (v.distinct, (v.ascending, (v.indicators_few, v.rules_simple)))),
              ),
            ))),
      )
