-- ===== src/StrategyHealth/Assessment.antt =====
-- `assess_health` (app/strategy_health/service.py) and the states of app/strategy_health/schemas.py, over
-- any type of numbers. The thresholds and observed values of the rules are left out: nothing reads them.
use mercury_trading.Base.{
  ℕ, Bool, true, false, not, ◌&&◌, ◌||◌, List, [], ◌∷◌, ◌++◌, length, keep, any, leb, String,
  str_eq, if◌then◌else◌,
}
use mercury_trading.Base.Int.{ℤ, pos, leb_ℤ}
use mercury_trading.PaperTrading.Number.{Number, nought, one, min_of, max_of}

pub data HealthState : Type 0 where
  healthy watch degraded suspended retired : HealthState

pub data HealthFlag : Type 0 where
  performance_degradation sharpe_decay drawdown_abnormal turnover_drift : HealthFlag
  execution_degradation regime_mismatch : HealthFlag

abbrev pub same_flag : HealthFlag → HealthFlag → Bool
same_flag HealthFlag.performance_degradation HealthFlag.performance_degradation = true
same_flag HealthFlag.sharpe_decay HealthFlag.sharpe_decay = true
same_flag HealthFlag.drawdown_abnormal HealthFlag.drawdown_abnormal = true
same_flag HealthFlag.turnover_drift HealthFlag.turnover_drift = true
same_flag HealthFlag.execution_degradation HealthFlag.execution_degradation = true
same_flag HealthFlag.regime_mismatch HealthFlag.regime_mismatch = true
same_flag _ _ = false

abbrev pub has_flag : HealthFlag → List HealthFlag → Bool
has_flag f = any (same_flag f)

abbrev pub is_alpha : HealthFlag → Bool
is_alpha HealthFlag.execution_degradation = false
is_alpha HealthFlag.regime_mismatch = false
is_alpha _ = true

pub record Components (F : Type 0) : Type 0 where
  pub return_component : F
  pub sharpe : F
  pub drawdown : F
  pub volatility : F
  pub turnover : F
  pub execution : F

pub record Rule : Type 0 where
  pub rule : String
  pub passed : Bool

pub record HealthAssessment (F : Type 0) : Type 0 where
  pub score : F
  pub components : Components F
  pub flags : List HealthFlag
  pub state : HealthState
  pub rules : List Rule

-- `round(x, 4)` and `int(x)`
pub record Rounding (F : Type 0) : Type 0 where
  pub round4 : F → F
  pub truncate : F → ℤ

abbrev pub flag_when : Bool → HealthFlag → List HealthFlag
flag_when true f = f ∷ []
flag_when false f = []

-- The chain of conditions that chooses the state.
unfoldable pub state_of : Bool → Bool → List HealthFlag → ℕ → HealthState
state_of enough expected_weakness flags prior_degraded =
    let alpha = length (keep is_alpha flags) in
    if not enough
    then HealthState.healthy
    else if expected_weakness && leb alpha 0
    then HealthState.watch
    else if leb 2 alpha && leb 1 prior_degraded
    then HealthState.degraded
    else if leb 1 alpha || has_flag HealthFlag.execution_degradation flags
    then HealthState.watch
    else HealthState.healthy

abbrev pub is_degraded : HealthState → Bool
is_degraded HealthState.degraded = true
is_degraded _ = false

module _ {F : Type 0} ⦃num : Number F⦄ where
  open num use {of_nat, lt}

  unfoldable pub flags_of : Bool → Components F → Bool → List HealthFlag
  flags_of enough c expected_weakness =
      flag_when (enough && lt c.return_component (of_nat 50)) HealthFlag.performance_degradation
      ++ (flag_when (enough && lt c.sharpe (of_nat 50)) HealthFlag.sharpe_decay
          ++ (flag_when (enough && lt c.drawdown (of_nat 40)) HealthFlag.drawdown_abnormal
              ++ (flag_when (enough && lt c.turnover (of_nat 50)) HealthFlag.turnover_drift
                  ++ (flag_when (lt c.execution (of_nat 50)) HealthFlag.execution_degradation
                      ++ flag_when expected_weakness HealthFlag.regime_mismatch))))

module _ {F : Type 0} where
  -- `d.get(key, default)`
  unfoldable pub get_or : List (String × F) → String → F → F
  get_or [] key default = default
  get_or ((k, x) ∷ d) key default = if str_eq k key then x else get_or d key default

  module _ ⦃num : Number F⦄ (rounding : Rounding F) where
    open num use {add, sub, mul, div, absolute, of_nat, le, lt}

    abbrev hundred : F
    hundred = of_nat 100

    unfoldable pub ratio_component : F → F → F
    ratio_component value expected =
        if le expected nought
        then (if le expected value then hundred else nought)
        else rounding.round4 (max_of nought (min_of hundred (div (mul hundred value) expected)))

    -- 1e-12 is the quotient of 1 and 10 to the twelfth.
    unfoldable pub inverse_ratio_component : F → F → F
    inverse_ratio_component value expected =
        if le expected nought
        then (if le value expected then hundred else nought)
        else rounding.round4 (
            max_of nought (
              min_of hundred
                (div (mul hundred expected) (max_of value (div one (of_nat 1_000_000_000_000))))))

    unfoldable pub drawdown_component : F → F → F
    unfolding inverse_ratio_component
    drawdown_component value expected = inverse_ratio_component (absolute value) (absolute expected)

    unfoldable pub execution_component : List (String × F) → F
    unfolding inverse_ratio_component get_or
    execution_component context =
        let expected_cost = get_or context "expected_cost_bps" nought in
        inverse_ratio_component (get_or context "realized_cost_bps" expected_cost) expected_cost

    unfoldable pub components_of :
        List (String × F) → List (String × F) → List (String × F) → Components F
    unfolding ratio_component drawdown_component execution_component
    components_of metrics expected execution_context = record {
      return_component =
          ratio_component (get_or metrics "rolling_return" nought)
            (get_or expected "return" nought);
      sharpe =
          ratio_component (get_or metrics "rolling_sharpe" nought)
            (get_or expected "sharpe" nought);
      drawdown =
          drawdown_component (get_or metrics "rolling_drawdown" nought)
            (get_or expected "max_drawdown" nought);
      volatility =
          inverse_ratio_component (get_or metrics "rolling_volatility" nought)
            (get_or expected "volatility" nought);
      turnover =
          inverse_ratio_component (get_or metrics "rolling_turnover" nought)
            (get_or expected "turnover" nought);
      execution = execution_component execution_context;
    }

    -- At least 3 observations and 10 trades.
    unfoldable pub sufficient : List (String × F) → Bool
    unfolding get_or
    sufficient metrics =
        leb_ℤ (pos 3) (rounding.truncate (get_or metrics "observations" nought))
        && leb_ℤ (pos 10) (rounding.truncate (get_or metrics "trades" nought))

    unfoldable pub score_of : Components F → F
    score_of c = rounding.round4 (
        div
          (add (add (add (add (add nought c.return_component) c.sharpe) c.drawdown) c.volatility)
            c.turnover)
          (of_nat 5))

    unfoldable pub assess_health :
        List (String × F) → List (String × F) → Bool → List (String × F) → ℕ → HealthAssessment F
    unfolding components_of sufficient flags_of score_of state_of
    assess_health metrics expected expected_weakness execution_context prior_degraded =
        let enough = sufficient metrics in
        let c = components_of metrics expected execution_context in
        let flags = flags_of enough c expected_weakness in
        let state = state_of enough expected_weakness flags prior_degraded in
        record {
          score = score_of c;
          components = c;
          flags = flags;
          state = state;
          rules =
              record { rule = "MINIMUM_EVIDENCE"; passed = enough }
              ∷ record { rule = "PERSISTENT_ALPHA_DECAY"; passed = is_degraded state }
              ∷ record { rule = "REGIME_EXPECTED_WEAKNESS"; passed = not expected_weakness }
              ∷ record { rule = "EXECUTION_SEPARATION"; passed = true }
              ∷ [];
        }
