-- ===== src/Campaigns/Scoring/Bounds.antt =====
-- Every component of a score is between 0 and 1 (app/campaigns/ranking.py).
use mercury_trading.Base.{◌≡◌, subst, true, Option, List, arith}
use mercury_trading.PaperTrading.Number.{Number, IsOrdered, nought, one, min_of, max_of}
use mercury_trading.Campaigns.Scoring.Defs.{
  RiskFlag, BacktestMetrics, CampaignScore, clamp, score_components,
}

-- What is documented of `round(x, 6)`: it is monotone, and keeps 0 and 1.
pub record IsRounding {F : Type 0} ⦃num : Number F⦄ (round6 : F → F) : Type 0 where
  pub monotone : (a b : F) → num.le a b ≡ true → num.le (round6 a) (round6 b) ≡ true
  pub keeps_0 : round6 nought ≡ nought
  pub keeps_1 : round6 one ≡ one

module _ {F : Type 0} ⦃num : Number F⦄ where
  abbrev pub IsUnit : F → Type 0
  IsUnit x = (num.le nought x ≡ true) × (num.le x one ≡ true)

  -- All seven components are between 0 and 1.
  pub record AreUnits (c : CampaignScore F) : Type 0 where
    pub return_unit : IsUnit c.risk_adjusted_return
    pub downside_unit : IsUnit c.downside_quality
    pub drawdown_unit : IsUnit c.drawdown_control
    pub turnover_unit : IsUnit c.turnover_control
    pub trades_unit : IsUnit c.trade_count
    pub overfitting_unit : IsUnit c.overfitting_risk
    pub stress_unit : IsUnit c.stress_robustness

  module _ (laws : IsOrdered F) (round6 : F → F) (rounding : IsRounding round6)
      (zero_le_one : num.le nought one ≡ true) where
    clamp-IsUnit : (value : F) → IsUnit (clamp round6 value)
    unfolding clamp
    clamp-IsUnit value =
        let x = max_of nought (min_of one value) in
        let above : num.le nought x ≡ true = ground (
          arith,
          laws.le_refl nought,
          laws.lt-eq-not-le nought (min_of one value),
          laws.le_total nought (min_of one value),
        ) in
        let small : num.le (min_of one value) one ≡ true =
          ground (arith, laws.le_refl one, laws.lt-eq-not-le value one, laws.le_total value one) in
        let below : num.le x one ≡ true = ground (arith, zero_le_one, small) in
        (
          subst (λ z. num.le z (round6 x) ≡ true) rounding.keeps_0
              (rounding.monotone nought x above),
          subst (λ z. num.le (round6 x) z ≡ true) rounding.keeps_1 (rounding.monotone x one below),
        )

    -- For ordered numbers and a monotone rounding that keeps 0 and 1, every component of a score is between 0
    -- and 1.
    pub score_components-AreUnits :
        (metrics : BacktestMetrics F) (robustness_score : Option F) (risk_flags : List RiskFlag)
        → AreUnits (score_components round6 metrics robustness_score risk_flags)
    unfolding score_components
    score_components-AreUnits metrics robustness_score risk_flags = record {
      return_unit = clamp-IsUnit _;
      downside_unit = clamp-IsUnit _;
      drawdown_unit = clamp-IsUnit _;
      turnover_unit = clamp-IsUnit _;
      trades_unit = clamp-IsUnit _;
      overfitting_unit = clamp-IsUnit _;
      stress_unit = clamp-IsUnit _;
    }
