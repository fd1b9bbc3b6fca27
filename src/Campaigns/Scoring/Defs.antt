-- ===== src/Campaigns/Scoring/Defs.antt =====
-- `detect_overfitting` (app/campaigns/overfitting.py) and `score_experiment` (app/campaigns/ranking.py). The
-- rounding to a number of digits is a parameter.
use mercury_trading.Base.{
  ℕ, ◌&&◌, Bool, Option, none, some, List, [], ◌∷◌, ◌++◌, length, if◌then◌else◌, ltb,
}
use mercury_trading.PaperTrading.Number.{Number, nought, one, min_of, max_of}

pub data RiskFlag : Type 0 where
  validation_degradation_high drawdown_limit_breached turnover_too_high : RiskFlag
  trade_count_too_low validation_performance_weak : RiskFlag

-- The entries of a metrics dictionary that are read.
pub record BacktestMetrics (F : Type 0) : Type 0 where
  pub sharpe_ratio : Option F
  pub sortino_ratio : Option F
  pub max_drawdown : Option F
  pub turnover : Option F
  pub number_of_trades : Option ℕ

-- The entries of the constraints that are read.
pub record OverfittingConstraints (F : Type 0) : Type 0 where
  pub max_drawdown : Option F
  pub max_turnover : Option F
  pub minimum_trade_count : Option ℕ
  pub minimum_validation_sharpe : Option F

pub record CampaignScore (F : Type 0) : Type 0 where
  pub risk_adjusted_return : F
  pub downside_quality : F
  pub drawdown_control : F
  pub turnover_control : F
  pub trade_count : F
  pub overfitting_risk : F
  pub stress_robustness : F

-- `d.get(key, default)`
abbrev get_or : {A : Type 0} → Option A → A → A
get_or none d = d
get_or (some a) d = a

abbrev flag_when : Bool → RiskFlag → List RiskFlag
flag_when b f = if b then f ∷ [] else []

module _ {F : Type 0} ⦃num : Number F⦄ where
  open num use {add, sub, mul, div, absolute, of_nat, lt}

  -- A literal with two decimals: the quotient is the double that is nearest to it.
  abbrev hundredths : ℕ → F
  hundredths n = div (of_nat n) (of_nat 100)

  unfoldable pub detect_overfitting :
      BacktestMetrics F → BacktestMetrics F → OverfittingConstraints F → List RiskFlag
  detect_overfitting train_metrics validation_metrics constraints =
      let train_sharpe = get_or train_metrics.sharpe_ratio nought in
      let validation_sharpe = get_or validation_metrics.sharpe_ratio nought in
      let validation_drawdown = absolute (get_or validation_metrics.max_drawdown nought) in
      let turnover = get_or validation_metrics.turnover nought in
      let trades = get_or validation_metrics.number_of_trades 0 in
      flag_when (lt nought train_sharpe && lt validation_sharpe (mul train_sharpe (hundredths 50)))
        validation_degradation_high
      ++ (flag_when (lt (get_or constraints.max_drawdown (hundredths 35)) validation_drawdown)
            drawdown_limit_breached
          ++ (flag_when (lt (get_or constraints.max_turnover (of_nat 8)) turnover) turnover_too_high
              ++ (flag_when (ltb trades (get_or constraints.minimum_trade_count 1))
                    trade_count_too_low
                  ++ flag_when
                      (lt validation_sharpe
                        (get_or constraints.minimum_validation_sharpe (sub nought (of_nat 2))))
                      validation_performance_weak)))

  module _ (round6 : F → F) where
    -- `_clamp`
    unfoldable pub clamp : F → F
    clamp value = round6 (max_of nought (min_of one value))

    -- The `components` of `score_experiment`.
    unfoldable pub score_components : BacktestMetrics F → Option F → List RiskFlag → CampaignScore F
    unfolding clamp
    score_components metrics robustness_score risk_flags =
        let flag_penalty =
          min_of (hundredths 50) (mul (of_nat (length risk_flags)) (hundredths 12)) in
        let sharpe = get_or metrics.sharpe_ratio nought in
        let sortino = get_or metrics.sortino_ratio nought in
        let drawdown = absolute (get_or metrics.max_drawdown nought) in
        let turnover = get_or metrics.turnover nought in
        let trades = of_nat (get_or metrics.number_of_trades 0) in
        record {
          risk_adjusted_return = clamp (div (add sharpe (of_nat 2)) (of_nat 4));
          downside_quality = clamp (div (add sortino (of_nat 2)) (of_nat 4));
          drawdown_control = clamp (sub one drawdown);
          turnover_control = clamp (sub one (div turnover (of_nat 10)));
          trade_count = clamp (div trades (of_nat 10));
          overfitting_risk = clamp (sub one flag_penalty);
          stress_robustness = clamp (div (get_or robustness_score (of_nat 100)) (of_nat 100));
        }

  -- The weighted sum of the components, from the left.
  unfoldable pub weighted : CampaignScore F → F
  weighted c =
      add
        (add
          (add
            (add
              (add
                (add (mul c.risk_adjusted_return (hundredths 25))
                  (mul c.downside_quality (hundredths 15)))
                (mul c.drawdown_control (hundredths 20)))
              (mul c.turnover_control (hundredths 10)))
            (mul c.trade_count (hundredths 10)))
          (mul c.overfitting_risk (hundredths 15)))
        (mul c.stress_robustness (hundredths 5))

  module _ (round4 round6 : F → F) where
    unfoldable pub score_experiment :
        BacktestMetrics F → Option F → List RiskFlag → F × CampaignScore F
    unfolding score_components weighted
    score_experiment metrics robustness_score risk_flags =
        let components = score_components round6 metrics robustness_score risk_flags in
        (round4 (mul (of_nat 100) (weighted components)), components)
