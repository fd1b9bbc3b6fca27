-- ===== src/Campaigns/Service/Experiments.antt =====
-- Running a planned experiment: `_run_campaign_experiment` (app/campaigns/service.py).
use mercury_trading.Base.{
  ℕ, zero, suc, ◌+◌, Bool, true, false, Option, none, some, List, [], ◌∷◌, ◌++◌, find, length, ◌==◌,
  if◌then◌else◌, String, str_eq, Result,
}
use mercury_trading.Campaigns.Splits.Defs.{Period}
use mercury_trading.Campaigns.WalkForward.Defs.{Window}
use mercury_trading.Campaigns.WalkForward.Leakage.{campaign_windows}
use mercury_trading.Campaigns.Service.Model.{
  Uuid, Job, completed, Exc, value_error, Campaign, Experiment, Evaluation,
  campaign_experiment_rejection, campaign_experiment_acceptance,
}
use mercury_trading.Campaigns.Service.Action.{
  Action, pure, gets, or_raise, lift, ◌>>=◌, ◌>>◌, modify, update_campaign, update_experiment,
  update_job, record_decision, require_campaign,
}
use mercury_trading.Campaigns.Service.Planning.{is_completed, nonempty}

-- What the service calls of the other parts of the program: `ExperimentService.run_backtest` on a
-- period, which stores a backtest and returns its id; `detect_overfitting` on the train and the
-- validation backtest; and the risk flags of `StressTestService.run` on the validation backtest.
-- `outranks` compares the keys that `finalize_campaign` sorts by, the score of `score_experiment`
-- with the id. `evolve` is `_run_evolution_if_requested`.
pub record Research : Type 0 where
  pub run_backtest_on : Campaign → Experiment → Period → Result Exc Uuid
  pub detect_overfitting : Campaign → Uuid → Uuid → List String
  pub stress_flags : Campaign → Uuid → Result Exc (List String)
  pub outranks : Experiment → Experiment → Bool
  pub evolve : Campaign → List Experiment → Result Exc (Option Uuid)

-- `list(dict.fromkeys(xs))`: each text once, where it stands first.
unfoldable pub without : String → List String → List String
without x [] = []
without x (y ∷ ys) = if str_eq y x then without x ys else y ∷ without x ys

unfoldable pub dedup_from : ℕ → List String → List String
unfolding without
dedup_from zero xs = []
dedup_from (suc n) [] = []
dedup_from (suc n) (x ∷ xs) = x ∷ dedup_from n (without x xs)

unfoldable pub from_keys : List String → List String
unfolding dedup_from
from_keys xs = dedup_from (length xs) xs

module _ (research : Research) where
  open research use {run_backtest_on, detect_overfitting, stress_flags}

  -- A round of `_run_walk_forward_evaluations`: two backtests for the window, then the others.
  unfoldable pub run_window :
      Campaign → Experiment → Window → Action (List (Uuid × Uuid)) → Action (List (Uuid × Uuid))
  run_window campaign planned_row w others = do
    train ←
        lift (
          run_backtest_on campaign planned_row
            (record { start = w.train_start; end = w.train_end }))
    test ←
        lift
          (run_backtest_on campaign planned_row (record { start = w.test_start; end = w.test_end }))
    rest ← others
    pure ((train, test) ∷ rest)

  unfoldable pub run_windows : Campaign → Experiment → List Window → Action (List (Uuid × Uuid))
  run_windows campaign planned_row [] = pure []
  run_windows campaign planned_row (w ∷ ws) =
      run_window campaign planned_row w (run_windows campaign planned_row ws)

  -- The writes to the experiment before the stress test.
  unfoldable pub complete_row : Evaluation → List String → Experiment → Experiment
  complete_row evaluation flags e = record e {
    experiment_id = some evaluation.validation_experiment_id;
    status = completed;
    evaluation = some evaluation;
    risk_flags = flags;
  }

  -- The stress test, where the campaign asks for one: the flags with its own.
  unfoldable pub stress_test :
      Campaign → Experiment → Evaluation → List String → Action (List String)
  unfolding from_keys complete_row
  stress_test campaign planned_row evaluation flags =
      if campaign.constraints.require_stress_testing
      then (do
        found ← lift (stress_flags campaign evaluation.validation_experiment_id)
        modify (
            update_experiment planned_row.id (
              complete_row (record evaluation { stress_tested = true })
                (from_keys (flags ++ found))))
        pure (from_keys (flags ++ found)))
      else pure flags

  -- The budget, the rejection and the decision, after an experiment is complete.
  unfoldable pub account_experiment : Campaign → Experiment → Uuid → List String → Action (Unit {0})
  account_experiment campaign planned_row validation_id flags = do
    modify (
        update_campaign campaign.id (λ c. record c {
          budget_used = record c.budget_used { experiments = c.budget_used.experiments + 1 };
          rejected_strategies =
              if nonempty flags
              then c.rejected_strategies
                ++ (record { campaign_experiment_id = planned_row.id; risk_flags = flags } ∷ [])
              else c.rejected_strategies;
        }))
    record_decision (record {
      decision_type =
          if nonempty flags then campaign_experiment_rejection else campaign_experiment_acceptance;
      campaign_id = campaign.id;
      experiment_id = some validation_id;
      count = length flags;
    })

  -- `_run_campaign_experiment` from the backtests on.
  unfoldable pub evaluate_experiment : Campaign → Experiment → Job → Action (Unit {0})
  unfolding complete_row
  evaluate_experiment campaign planned_row job = do
    let split = campaign.split_definition
    train ← lift (run_backtest_on campaign planned_row split.train)
    validation ← lift (run_backtest_on campaign planned_row split.validation)
    let flags = detect_overfitting campaign train validation
    let windows = campaign_windows campaign.start_date split planned_row.long_window
    walk_forward ← run_windows campaign planned_row windows
    let evaluation : Evaluation = record {
      train_experiment_id = train;
      validation_experiment_id = validation;
      walk_forward_windows = walk_forward;
      stress_tested = false;
      test_experiment_id = none;
    }
    modify (update_job job.id (λ j. record j { experiment_id = some validation }))
    modify (update_experiment planned_row.id (complete_row evaluation flags))
    all_flags ← stress_test campaign planned_row evaluation flags
    account_experiment campaign planned_row validation all_flags

  unfoldable pub run_campaign_experiment : Job → Action (Unit {0})
  run_campaign_experiment job = do
    campaign ← require_campaign job.campaign_id
    experiment_id ←
        or_raise job.campaign_experiment_id
          (value_error "backtest job is missing campaign_experiment_id")
    experiments ← gets (λ s. s.experiments)
    planned_row ←
        or_raise (find (λ e. e.id == experiment_id) experiments)
          (value_error "campaign experiment not found")
    if is_completed planned_row.status
        then pure tt
        else evaluate_experiment campaign planned_row job
