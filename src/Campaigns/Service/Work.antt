-- ===== src/Campaigns/Service/Work.antt =====
-- The job rows under the work of a job (app/campaigns/service.py).
use mercury_trading.Base.{ℕ, refl, Option, List, [], ◌∷◌, String}
use mercury_trading.Campaigns.WalkForward.Defs.{Window}
use mercury_trading.Campaigns.Service.Model.{
  Uuid, Job, JobType, Ranking, Campaign, Experiment, Evaluation, Store,
}
use mercury_trading.Campaigns.Service.Action.{Action, update_job, modify}
use mercury_trading.Campaigns.Service.Rows.{update_rows-Tags}
use mercury_trading.Campaigns.Service.Frames.{
  TagsJobs, TagsJobs-modify, TagsJobs-write, write_rules,
}
use mercury_trading.Campaigns.Service.Experiments.{
  Research, run_window, run_windows, stress_test, account_experiment, evaluate_experiment,
  run_campaign_experiment,
}
use mercury_trading.Campaigns.Service.Settling.{raise_if_cancelled}
use mercury_trading.Campaigns.Service.Lifecycle.{
  evaluate_test, evaluate_tests, run_locked_test_evaluations, finalize_campaign,
  refresh_campaign_state, attempt_job, dispatch,
}

module _ (research : Research) where
  run_window-TagsJobs :
      (c : Campaign) (e : Experiment) (w : Window) (others : Action (List (Uuid × Uuid)))
      → TagsJobs others
      → TagsJobs (run_window research c e w others)
  unfolding run_window
  run_window-TagsJobs c e w others h = search write_rules depth 9

  run_windows-TagsJobs :
      (c : Campaign) (e : Experiment) (ws : List Window) → TagsJobs (run_windows research c e ws)
  unfolding run_windows
  run_windows-TagsJobs c e [] = search write_rules
  run_windows-TagsJobs c e (w ∷ ws) = run_window-TagsJobs c e w _ (run_windows-TagsJobs c e ws)

  stress_test-TagsJobs :
      (c : Campaign) (e : Experiment) (v : Evaluation) (flags : List String)
      → TagsJobs (stress_test research c e v flags)
  unfolding stress_test
  stress_test-TagsJobs c e v flags = search write_rules depth 9

  account_experiment-TagsJobs :
      (c : Campaign) (e : Experiment) (v : Uuid) (flags : List String)
      → TagsJobs (account_experiment research c e v flags)
  unfolding account_experiment
  account_experiment-TagsJobs c e v flags = search write_rules depth 9

  TagsJobs-tag :
      (i : Uuid) (v : Option Uuid)
      → TagsJobs (modify (update_job i (λ j. record j { experiment_id = v })))
  TagsJobs-tag i v = TagsJobs-write _ (λ s. update_rows-Tags _ v s.jobs)

  ruleset experiment_rules = (
    write_rules, TagsJobs-tag, run_windows-TagsJobs, stress_test-TagsJobs,
    account_experiment-TagsJobs,
  )

  evaluate_experiment-TagsJobs :
      (c : Campaign) (e : Experiment) (job : Job) → TagsJobs (evaluate_experiment research c e job)
  unfolding evaluate_experiment
  evaluate_experiment-TagsJobs c e job = search experiment_rules depth 12

  run_campaign_experiment-TagsJobs : (job : Job) → TagsJobs (run_campaign_experiment research job)
  unfolding run_campaign_experiment
  run_campaign_experiment-TagsJobs job = search (write_rules, evaluate_experiment-TagsJobs) depth 12

  evaluate_test-TagsJobs :
      (c : Campaign) (e : Experiment) (others : Action ℕ)
      → TagsJobs others
      → TagsJobs (evaluate_test research c e others)
  unfolding evaluate_test
  evaluate_test-TagsJobs c e others h = search write_rules depth 9

  evaluate_tests-TagsJobs :
      (c : Campaign) (es : List Experiment) → TagsJobs (evaluate_tests research c es)
  unfolding evaluate_tests
  evaluate_tests-TagsJobs c [] = search write_rules
  evaluate_tests-TagsJobs c (e ∷ es) = evaluate_test-TagsJobs c e _ (evaluate_tests-TagsJobs c es)

  run_locked-TagsJobs :
      (c : Campaign) (es : List Experiment) → TagsJobs (run_locked_test_evaluations research c es)
  unfolding run_locked_test_evaluations
  run_locked-TagsJobs c es = search (write_rules, evaluate_tests-TagsJobs) depth 9

  TagsJobs-rankings :
      (f : Store → List Ranking) → TagsJobs (modify (λ s. record s { rankings = f s }))
  TagsJobs-rankings f = TagsJobs-modify _ (λ s. refl)

  pub finalize-TagsJobs : (id : Uuid) → TagsJobs (finalize_campaign research id)
  unfolding finalize_campaign
  finalize-TagsJobs id = search (write_rules, TagsJobs-rankings, run_locked-TagsJobs) depth 12

  pub refresh-TagsJobs : (id : Uuid) → TagsJobs (refresh_campaign_state research id)
  unfolding refresh_campaign_state
  refresh-TagsJobs id = search (write_rules, finalize-TagsJobs) depth 12

  dispatch-TagsJobs : (t : JobType) (job : Job) → TagsJobs (dispatch research t job)
  unfolding dispatch
  dispatch-TagsJobs JobType.run_backtest job = run_campaign_experiment-TagsJobs job
  dispatch-TagsJobs JobType.generate_report job = finalize-TagsJobs job.campaign_id
  dispatch-TagsJobs (JobType.unknown t) job = search write_rules

  -- The work of a job writes no job row but the `experiment_id`s.
  pub attempt_job-TagsJobs : (job : Job) → TagsJobs (attempt_job research job)
  unfolding attempt_job raise_if_cancelled
  attempt_job-TagsJobs job = search (write_rules, dispatch-TagsJobs) depth 12
