-- ===== src/StrategyHealth/Tests.antt =====
-- Runs of the health service (app/strategy_health), with whole numbers for the floats.
use mercury_trading.Base.{
  ℕ, ◌≡◌, ◌≤◌, ◌↔◌, refl, true, false, none, some, [], ◌∷◌, List, String, ok,
}
use mercury_trading.Base.Int.{pos}
use mercury_trading.Base.Session.{◌>>=◌}
use mercury_trading.PaperTrading.Tests.{cents}
use mercury_trading.StrategyHealth.Assessment.{
  HealthState, HealthFlag, Components, Rounding, assess_health, sufficient, components_of, get_or,
}
use mercury_trading.StrategyHealth.Model.{
  LifecycleState, ScheduleMode, StrategyHealth, HealthStore, HealthObservationRequest,
  TriggerStatus,
}
use mercury_trading.StrategyHealth.Service.{transition, record_observation}
use mercury_trading.StrategyHealth.Research.{
  Campaigning, create_trigger, keep_trigger, run_due_schedules,
}
use mercury_trading.StrategyHealth.Operations.{HealthOperation, observe, move, run_due, perform_all}
use mercury_trading.StrategyHealth.Retirement.{perform_all-IsRetired}
use mercury_trading.StrategyHealth.Consistency.{IsRetired}
use mercury_trading.StrategyHealth.Triggers.{DistinctTriggers, perform_all-DistinctTriggers}
use mercury_trading.StrategyHealth.Degradation.{weak_measures}
use mercury_trading.StrategyHealth.Observed.{WasDegraded, record_observation-degraded_iff}

abbrev whole : Rounding ℕ
whole = record { round4 = λ x. x; truncate = pos }

abbrev granting : Campaigning String
granting = record { model_validate = ok; create_campaign = λ t. ok 77 }

abbrev fair : Components ℕ
fair = record {
  return_component = 90;
  sharpe = 90;
  drawdown = 90;
  volatility = 90;
  turnover = 90;
  execution = 90;
}

abbrev health_row : ℕ → HealthState → LifecycleState → StrategyHealth ℕ
health_row i state lifecycle = record {
  strategy_id = i;
  state = state;
  lifecycle_state = lifecycle;
  latest_score = 90;
  latest_components = fair;
  active_flags = [];
  last_evaluated_at = 0;
}

abbrev store : HealthStore ℕ String
store = record {
  healths =
      health_row 7 HealthState.retired LifecycleState.retire
      ∷ health_row 8 HealthState.suspended LifecycleState.de_risk
      ∷ [];
  observations =
      record {
        strategy_id = 8;
        observed_at = 1;
        components = fair;
        flags = HealthFlag.sharpe_decay ∷ HealthFlag.turnover_drift ∷ [];
        state = HealthState.watch;
      }
      ∷ [];
  schedules =
      record {
        id = 3;
        strategy_id = some 8;
        mode = ScheduleMode.hybrid;
        is_active = true;
        cadence_days = some 1;
        campaign_template = "momentum";
        trigger_types = "STRATEGY_DEGRADED" ∷ [];
        last_run_at = none;
      }
      ∷ [];
  triggers = [];
  decisions = [];
}

abbrev measured : List (String × ℕ)
measured = ("observations", 5) ∷ ("trades", 12) ∷ ("rolling_return", 1) ∷ ("rolling_sharpe", 1) ∷ []

abbrev expected : List (String × ℕ)
expected = ("return", 10) ∷ ("sharpe", 10) ∷ []

abbrev bad_day : HealthObservationRequest ℕ
bad_day = record {
  observed_at = 9;
  metrics = measured;
  expected_metrics = expected;
  expected_weakness = false;
  execution_context = [];
}

abbrev tiny_sample : HealthObservationRequest ℕ
tiny_sample = record bad_day { metrics = ("observations", 1) ∷ [] }

abbrev history : List (HealthOperation ℕ String)
history =
    observe 100 8 bad_day
    ∷ observe 200 8 bad_day
    ∷ move 7 HealthState.healthy true
    ∷ run_due 300 none
    ∷ run_due 400 none
    ∷ []

degraded_now : (assess_health whole measured expected false [] 1).state ≡ HealthState.degraded
unfolding assess_health get_or
degraded_now = refl

-- Two bad days start one campaign, and the periodic review another.
triggered :
    (perform_all whole granting history store).triggers
    ≡ record {
      id = 0;
      strategy_id = some 8;
      trigger_type = "STRATEGY_DEGRADED";
      deduplication_key = record { schedule_id = 3; key_type = "STRATEGY_DEGRADED"; day = 0 };
      campaign_id = some 77;
      status = TriggerStatus.campaign_created;
    }
      ∷ record {
        id = 1;
        strategy_id = some 8;
        trigger_type = "PERIODIC_REVIEW";
        deduplication_key = record { schedule_id = 3; key_type = "PERIODIC_REVIEW"; day = 0 };
        campaign_id = some 77;
        status = TriggerStatus.campaign_created;
      }
      ∷ []
unfolding record_observation transition create_trigger run_due_schedules keep_trigger assess_health
    get_or ◌>>=◌
triggered = refl

-- A small sample, which proves nothing, lifts a suspension.
suspended_returns :
    (record_observation whole granting 100 8 tiny_sample store).0
    ≡ ok record {
      strategy_id = 8;
      state = HealthState.healthy;
      lifecycle_state = LifecycleState.retain;
      latest_score = 60;
      latest_components = record {
        return_component = 0;
        sharpe = 0;
        drawdown = 100;
        volatility = 100;
        turnover = 100;
        execution = 100;
      };
      active_flags = [];
      last_evaluated_at = 9;
    }
unfolding record_observation assess_health get_or ◌>>=◌
suspended_returns = refl

perform_all-IsRetired_example :
    IsRetired 7
      (health_row 7 HealthState.retired LifecycleState.retire)
      (perform_all whole granting history store).healths
perform_all-IsRetired_example =
    perform_all-IsRetired 7 (health_row 7 HealthState.retired LifecycleState.retire) granting whole
      history store record { consistent = (refl, (refl, tt)); row = refl; retired = refl }

perform_all-DistinctTriggers_example :
    DistinctTriggers (perform_all whole granting history store).triggers
perform_all-DistinctTriggers_example = perform_all-DistinctTriggers granting whole history store tt

abbrev degraded_row : StrategyHealth ℕ
degraded_row = record {
  strategy_id = 8;
  state = HealthState.degraded;
  lifecycle_state = LifecycleState.de_risk;
  latest_score = 64;
  latest_components = record {
    return_component = 10;
    sharpe = 10;
    drawdown = 100;
    volatility = 100;
    turnover = 100;
    execution = 100;
  };
  active_flags = HealthFlag.performance_degradation ∷ HealthFlag.sharpe_decay ∷ [];
  last_evaluated_at = 9;
}

-- The second poor day.
degrades : (record_observation whole granting 100 8 bad_day store).0 ≡ ok degraded_row
unfolding record_observation create_trigger keep_trigger assess_health get_or ◌>>=◌
degrades = refl

record_observation-degraded_iff_example : (degraded_row.state ≡ HealthState.degraded) ↔ (
    (sufficient whole measured ≡ true)
    × (2 ≤ weak_measures (components_of whole measured expected []))
    × WasDegraded 8 store)
record_observation-degraded_iff_example =
    record_observation-degraded_iff whole granting 100 8 bad_day store degrades
