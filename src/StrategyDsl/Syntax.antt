-- ===== src/StrategyDsl/Syntax.antt =====
-- The models of app/strategy_dsl/schemas.py, with the bounds of their fields. A dict is an association
-- list, and only one kind of indicator, of sizing and of strategy exists.
use mercury_trading.Base.{
  ℕ, suc, ◌≡◌, ◌↔◌, refl, subst, Bool, true, false, ◌&&◌, List, length, all, leb, arith, String,
  str_eq, eq_iff, &&-split,
}
use mercury_trading.PaperTrading.Number.{Number, nought, one}
use Prim.Native.String.{count}

pub data Operator : Type 0 where
  gt gte lt lte : Operator

pub data Connective : Type 0 where
  all_of any_of : Connective

mutual
  pub data Condition : Type 0 where
    comparison : String → Operator → String → Condition
    logical : Connective → Conditions → Condition

  pub data Conditions : Type 0 where
    nil : Conditions
    cons : Condition → Conditions → Conditions

pub record RiskConstraints : Type 0 where
  pub max_bars_processed : ℕ
  pub max_runtime_ms : ℕ
  pub max_indicator_count : ℕ
  pub max_rule_complexity : ℕ

-- `indicators` holds the windows of the averages, and `position_size` the value of the sizing.
pub record StrategySpec (F : Type 0) : Type 0 where
  pub indicators : List (String × ℕ)
  pub entry : Condition
  pub exit : Condition
  pub position_size : F
  pub filters : List Condition
  pub risk_constraints : RiskConstraints

abbrev pub size_of : Conditions → ℕ
size_of nil = 0
size_of (cons c cs) = suc (size_of cs)

abbrev between : ℕ → ℕ → ℕ → Bool
between lo hi n = leb lo n && leb n hi

-- `Field(min_length=1, max_length=64)` on the names, and 2 to 8 conditions in a list.
unfoldable mutual
  pub fields_ok : Condition → Bool
  fields_ok (comparison l op r) = between 1 64 (count l) && between 1 64 (count r)
  fields_ok (logical k cs) = between 2 8 (size_of cs) && all_fields_ok cs

  pub all_fields_ok : Conditions → Bool
  all_fields_ok nil = true
  all_fields_ok (cons c cs) = fields_ok c && all_fields_ok cs

unfoldable pub risk_ok : RiskConstraints → Bool
risk_ok r =
    between 1 1_000_000 r.max_bars_processed
    && between 1 60_000 r.max_runtime_ms
    && between 1 64 r.max_indicator_count
    && between 1 128 r.max_rule_complexity

module _ {F : Type 0} ⦃num : Number F⦄ (is_identifier : String → Bool) where
  -- What the model accepts; `is_identifier` is the test of `indicator_names_are_safe`.
  unfoldable pub spec_ok : StrategySpec F → Bool
  unfolding risk_ok fields_ok
  spec_ok s =
      between 2 16 (length s.indicators)
      && all (λ i. between 2 500 i.1) s.indicators
      && fields_ok s.entry
      && fields_ok s.exit
      && num.lt nought s.position_size
      && num.le s.position_size one
      && leb (length s.filters) 8
      && all fields_ok s.filters
      && risk_ok s.risk_constraints
      && all (λ i. is_identifier i.0) s.indicators

-- `==` of the models.
abbrev pub same_operator : Operator → Operator → Bool
same_operator gt gt = true
same_operator gte gte = true
same_operator lt lt = true
same_operator lte lte = true
same_operator _ _ = false

abbrev pub same_connective : Connective → Connective → Bool
same_connective all_of all_of = true
same_connective any_of any_of = true
same_connective _ _ = false

unfoldable mutual
  pub same_condition : Condition → Condition → Bool
  same_condition (comparison l op r) (comparison l' op' r') =
      str_eq l l' && same_operator op op' && str_eq r r'
  same_condition (logical k cs) (logical k' cs') = same_connective k k' && same_conditions cs cs'
  same_condition _ _ = false

  pub same_conditions : Conditions → Conditions → Bool
  same_conditions nil nil = true
  same_conditions (cons c cs) (cons c' cs') = same_condition c c' && same_conditions cs cs'
  same_conditions _ _ = false

same_operator_iff : (a b : Operator) → (same_operator a b ≡ true) ↔ (a ≡ b)
same_operator_iff a b = ground arith

same_connective_iff : (a b : Connective) → (same_connective a b ≡ true) ↔ (a ≡ b)
same_connective_iff a b = ground arith

mutual
  unfolding same_condition

  same_condition_eq : (a b : Condition) → same_condition a b ≡ true → a ≡ b
  same_condition_eq (comparison l op r) (comparison l' op' r') h =
      ground (arith, eq_iff l l', eq_iff r r', same_operator_iff op op')
  same_condition_eq (logical k cs) (logical k' cs') h =
      ground (arith, same_connective_iff k k', same_conditions_eq cs cs')
  same_condition_eq (comparison l op r) (logical k' cs') h = absurd (ground arith)
  same_condition_eq (logical k cs) (comparison l' op' r') h = absurd (ground arith)

  same_conditions_eq : (a b : Conditions) → same_conditions a b ≡ true → a ≡ b
  same_conditions_eq nil nil h = refl
  same_conditions_eq (cons c cs) (cons c' cs') h =
      let (first, others) = &&-split (same_condition c c') (same_conditions cs cs') h in
      cc (same_condition_eq c c' first, same_conditions_eq cs cs' others)
  same_conditions_eq nil (cons c' cs') h = absurd (ground arith)
  same_conditions_eq (cons c cs) nil h = absurd (ground arith)

mutual
  unfolding same_condition

  same_condition_refl : (a : Condition) → same_condition a a ≡ true
  same_condition_refl (comparison l op r) =
      ground (arith, eq_iff l l, eq_iff r r, same_operator_iff op op)
  same_condition_refl (logical k cs) =
      ground (arith, same_connective_iff k k, same_conditions_refl cs)

  same_conditions_refl : (a : Conditions) → same_conditions a a ≡ true
  same_conditions_refl nil = refl
  same_conditions_refl (cons c cs) = ground (arith, same_condition_refl c, same_conditions_refl cs)

pub same_condition_iff : (a b : Condition) → (same_condition a b ≡ true) ↔ (a ≡ b)
same_condition_iff a b =
    (same_condition_eq a b, λ e. subst (λ c. same_condition a c ≡ true) e (same_condition_refl a))
