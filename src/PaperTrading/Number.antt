-- ===== src/PaperTrading/Number.antt =====
-- The floating-point operations that app/paper_trading uses, over any type of numbers, with the laws of
-- them that proofs may take. The laws hold of IEEE doubles as long as no value is NaN or infinite:
-- rounding is monotone, and keeps signs.
use mercury_trading.Base.{ℕ, ◌≡◌, Bool, true, not, ◌⊎◌, if◌then◌else◌}

pub record Number (F : Type 0) : Type 0 where
  pub add : F → F → F
  pub sub : F → F → F
  pub mul : F → F → F
  pub div : F → F → F
  pub absolute : F → F
  -- `x ** 0.5`
  pub square_root : F → F
  -- `round(x, 8)`
  pub round8 : F → F
  -- `float(n)`
  pub of_nat : ℕ → F
  -- 1e-9
  pub epsilon : F
  pub le : F → F → Bool
  pub lt : F → F → Bool
  pub eq : F → F → Bool

module _ {F : Type 0} ⦃num : Number F⦄ where
  open num use {of_nat, lt}

  abbrev pub nought : F
  nought = of_nat 0

  abbrev pub one : F
  one = of_nat 1

  -- Python's `min(a, b)` and `max(a, b)`
  abbrev pub min_of : F → F → F
  min_of a b = if lt b a then b else a

  abbrev pub max_of : F → F → F
  max_of a b = if lt a b then b else a

-- What is documented of the comparisons and of the rounding of sums.
pub record IsOrdered (F : Type 0) ⦃num : Number F⦄ : Type 0 where
  pub le_refl : (a : F) → num.le a a ≡ true
  pub le_trans : (a b c : F) → num.le a b ≡ true → num.le b c ≡ true → num.le a c ≡ true
  pub lt-eq-not-le : (a b : F) → num.lt a b ≡ not (num.le b a)
  pub le_total : (a b : F) → (num.le a b ≡ true) ⊎ (num.le b a ≡ true)
  pub eq_refl : (a : F) → num.eq a a ≡ true
  pub add_nonneg :
      (a b : F)
      → num.le (num.of_nat 0) a ≡ true
      → num.le (num.of_nat 0) b ≡ true
      → num.le (num.of_nat 0) (num.add a b) ≡ true
  pub sub_nonneg : (a b : F) → num.le a b ≡ true → num.le (num.of_nat 0) (num.sub b a) ≡ true
