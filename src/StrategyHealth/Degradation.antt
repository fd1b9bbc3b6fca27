-- ===== src/StrategyHealth/Degradation.antt =====
-- When an assessment says that a strategy degraded (app/strategy_health/service.py).
use mercury_trading.Base.{
  ℕ, ◌+◌, ◌≤◌, ◌≡◌, ◌↔◌, refl, sym, ap, ◌∙◌, Bool, true, false, List, ◌++◌, keep, length, arith,
  String, Bool-cases, inl, inr,
}
use mercury_trading.PaperTrading.Number.{Number}
use mercury_trading.StrategyHealth.Assessment.{
  HealthState, HealthFlag, is_alpha, flag_when, Components, Rounding, components_of, sufficient,
  flags_of, state_of, assess_health,
}

abbrev pub one_if : Bool → ℕ
one_if true = 1
one_if false = 0

state_of-degraded :
    (enough weak : Bool) (flags : List HealthFlag) (n : ℕ)
    → (state_of enough weak flags n ≡ HealthState.degraded)
      ↔ ((enough ≡ true) × ((2 ≤ length (keep is_alpha flags)) × (1 ≤ n)))
unfolding state_of
state_of-degraded enough weak flags n = ground arith

more_flags :
    (b : Bool) (f : HealthFlag) (fs : List HealthFlag)
    → is_alpha f ≡ true
    → length (keep is_alpha (flag_when b f ++ fs)) ≡ one_if b + length (keep is_alpha fs)
more_flags true f fs h = rw h (omega arith)
more_flags false f fs h = omega arith

no_more_flags :
    (x w : Bool)
    → length (
        keep is_alpha
          (flag_when x HealthFlag.execution_degradation ++ flag_when w HealthFlag.regime_mismatch))
      ≡ 0
no_more_flags true true = refl
no_more_flags true false = refl
no_more_flags false true = refl
no_more_flags false false = refl

six_flags :
    (a b c d x w : Bool)
    → length (
        keep is_alpha (
          flag_when a HealthFlag.performance_degradation
          ++ (flag_when b HealthFlag.sharpe_decay
              ++ (flag_when c HealthFlag.drawdown_abnormal
                  ++ (flag_when d HealthFlag.turnover_drift
                      ++ (flag_when x HealthFlag.execution_degradation
                          ++ flag_when w HealthFlag.regime_mismatch))))))
      ≡ one_if a + one_if b + one_if c + one_if d
six_flags a b c d x w =
    more_flags a HealthFlag.performance_degradation _ refl
    ∙ ap (λ n. one_if a + n)
        (more_flags b HealthFlag.sharpe_decay _ refl
          ∙ ap (λ n. one_if b + n)
              (more_flags c HealthFlag.drawdown_abnormal _ refl
                ∙ ap (λ n. one_if c + n)
                    (more_flags d HealthFlag.turnover_drift _ refl
                      ∙ ap (λ n. one_if d + n) (no_more_flags x w))))
    ∙ omega arith

module _ {F : Type 0} ⦃num : Number F⦄ where
  -- How many of the four measures of alpha are below their thresholds.
  abbrev pub weak_measures : Components F → ℕ
  weak_measures c =
      one_if (num.lt c.return_component (num.of_nat 50))
      + one_if (num.lt c.sharpe (num.of_nat 50))
      + one_if (num.lt c.drawdown (num.of_nat 40))
      + one_if (num.lt c.turnover (num.of_nat 50))

  -- The flags about alpha are one for each weak measure.
  alpha-weak_measures :
      (c : Components F) (weak : Bool)
      → length (keep is_alpha (flags_of true c weak)) ≡ weak_measures c
  unfolding flags_of
  alpha-weak_measures c weak =
      six_flags (num.lt c.return_component (num.of_nat 50)) (num.lt c.sharpe (num.of_nat 50))
        (num.lt c.drawdown (num.of_nat 40)) (num.lt c.turnover (num.of_nat 50))
        (num.lt c.execution (num.of_nat 50)) weak

  module _ (rounding : Rounding F) where
    -- An assessment says degraded exactly if the sample is sufficient, two measures of alpha are
    -- weak, and an earlier observation is counted.
    pub assess_health-degraded_iff :
        (m x : List (String × F)) (weak : Bool) (e : List (String × F)) (n : ℕ)
        → ((assess_health rounding m x weak e n).state ≡ HealthState.degraded) ↔ (
            (sufficient rounding m ≡ true)
            × ((2 ≤ weak_measures (components_of rounding m x e)) × (1 ≤ n)))
    unfolding assess_health
    assess_health-degraded_iff m x weak e n = elim (Bool-cases (sufficient rounding m)) [
      | inl enough ↦
          rw (enough, sym (alpha-weak_measures (components_of rounding m x e) weak))
            (state_of-degraded true weak (flags_of true (components_of rounding m x e) weak) n)
      | inr few ↦ rw few ((λ h. absurd (ground arith)), (λ h. absurd (ground arith)))
    ]
