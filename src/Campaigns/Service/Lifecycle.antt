-- ===== src/Campaigns/Service/Lifecycle.antt =====
-- The state of a campaign: cancelling, finalizing, executing a leased job, and recovery after an
-- interruption (app/campaigns/service.py).
use mercury_trading.Base.{
  ℕ, suc, ◌+◌, Bool, true, false, not, ◌&&◌, ◌||◌, Option, none, some, List, [], ◌∷◌, ◌++◌, map,
  keep, any, take, length, ◌==◌, if◌then◌else◌, is_some, String,
}
use mercury_trading.Campaigns.Service.Model.{
  Uuid, Instant, Job, JobStatus, JobType, CampaignStatus, value_error, Campaign, Experiment,
  Evaluation, Ranking, human_override, campaign_recovery, campaign_finalization, Store,
}
use mercury_trading.Campaigns.Service.Action.{
  Action, pure, raise, gets, lift, ◌>>=◌, ◌>>◌, modify, raise_when, update_rows, update_campaign,
  update_experiment, record_decision, require_campaign, require_job,
}
use mercury_trading.Campaigns.Service.Jobs.{
  is_waiting, is_running, is_failed, is_cancelled, is_leased_by, claim_next_job,
}
use mercury_trading.Campaigns.Service.Settling.{raise_if_cancelled, settle_job, close_job}
use mercury_trading.Campaigns.Service.Experiments.{Research, run_campaign_experiment}
use mercury_trading.Campaigns.Service.Planning.{create_jobs, is_completed, list_planned, nonempty}

abbrev pub of_campaign : Uuid → Job → Bool
of_campaign campaign_id j = j.campaign_id == campaign_id

abbrev pub list_jobs : Uuid → Store → List Job
list_jobs campaign_id s = keep (of_campaign campaign_id) s.jobs

-- The loop of `cancel_campaign`.
unfoldable pub cancel_waiting : Instant → Uuid → List Job → List Job
cancel_waiting now campaign_id =
    update_rows (λ j. of_campaign campaign_id j && is_waiting j.status)
      (λ j. record j { status = JobStatus.cancelled; ended_at = some now })

unfoldable pub cancel_campaign : Instant → Uuid → Action (Unit {0})
cancel_campaign now campaign_id = do
  campaign ← require_campaign campaign_id
  modify (update_campaign campaign.id (λ c. record c { status = CampaignStatus.cancelled }))
  modify (λ s. record s { jobs = cancel_waiting now campaign.id s.jobs })
  jobs ← gets (list_jobs campaign.id)
  record_decision (record {
    decision_type = human_override;
    campaign_id = campaign.id;
    experiment_id = none;
    count = length (keep (λ j. is_cancelled j.status) jobs);
  })

-- The experiments of a campaign that are planned and have never had a job.
unfoldable pub missing_jobs : Uuid → Store → List Experiment
unfolding list_planned
missing_jobs campaign_id s =
    let ids = map (λ j. j.campaign_experiment_id) (list_jobs campaign_id s) in
    keep (λ e. not (any (λ i. elim i [ none ↦ false | some k ↦ k == e.id ]) ids))
      (list_planned campaign_id s)

abbrev is_interruptible : CampaignStatus → Bool
is_interruptible CampaignStatus.queued = true
is_interruptible CampaignStatus.running = true
is_interruptible _ = false

abbrev pub is_active : JobStatus → Bool
is_active st = is_waiting st || is_running st

module _ (research : Research) where
  open research use {outranks, run_backtest_on, evolve}

  -- `sorted(…, reverse=True)`, by the score with the id.
  unfoldable pub insert_ranked : Experiment → List Experiment → List Experiment
  insert_ranked e [] = e ∷ []
  insert_ranked e (f ∷ fs) = if outranks f e then f ∷ insert_ranked e fs else e ∷ f ∷ fs

  unfoldable pub sort_ranked : List Experiment → List Experiment
  unfolding insert_ranked
  sort_ranked [] = []
  sort_ranked (e ∷ es) = insert_ranked e (sort_ranked es)

  -- `enumerate(ranked_rows, start=1)`
  unfoldable pub rankings_from : Uuid → ℕ → List Experiment → List Ranking
  rankings_from campaign_id index [] = []
  rankings_from campaign_id index (e ∷ es) =
      record {
        campaign_id = campaign_id;
        campaign_experiment_id = e.id;
        rank = index;
        risk_flags = e.risk_flags;
      }
      ∷ rankings_from campaign_id (suc index) es

  abbrev has_test : Option Evaluation → Bool
  has_test none = false
  has_test (some v) = is_some v.test_experiment_id

  abbrev with_test : Uuid → Option Evaluation → Option Evaluation
  with_test i none = none
  with_test i (some v) = some (record v { test_experiment_id = some i })

  -- A round of `_run_locked_test_evaluations`, then the others: how many test backtests they ran.
  unfoldable pub evaluate_test : Campaign → Experiment → Action ℕ → Action ℕ
  evaluate_test campaign e others = if has_test e.evaluation then others else (do
    test ← lift (run_backtest_on campaign e campaign.split_definition.test)
    modify (update_experiment e.id (λ x. record x { evaluation = with_test test e.evaluation }))
    count ← others
    pure (suc count))

  unfoldable pub evaluate_tests : Campaign → List Experiment → Action ℕ
  evaluate_tests campaign [] = pure 0
  evaluate_tests campaign (e ∷ es) = evaluate_test campaign e (evaluate_tests campaign es)

  unfoldable pub run_locked_test_evaluations : Campaign → List Experiment → Action (Unit {0})
  run_locked_test_evaluations campaign experiments = do
    count ← evaluate_tests campaign experiments
    modify (
        update_campaign campaign.id (λ c. record c {
          budget_used = record c.budget_used {
            test_evaluations = c.budget_used.test_evaluations + count;
          };
        }))

  -- The last writes of `finalize_campaign` to the campaign.
  unfoldable pub conclude : List Experiment → Campaign → Campaign
  conclude ranked c = record c {
    candidate_strategies =
        take 5 (map (λ e. e.id) (keep (λ e. not (nonempty e.risk_flags)) ranked));
    rejected_strategies =
        map (λ e. record { campaign_experiment_id = e.id; risk_flags = e.risk_flags })
          (keep (λ e. nonempty e.risk_flags) ranked);
    status = if nonempty ranked then CampaignStatus.completed else c.status;
  }

  unfoldable pub list_completed : Uuid → Store → List Experiment
  list_completed campaign_id s =
      keep (λ e. e.campaign_id == campaign_id && is_completed e.status) s.experiments

  unfoldable pub finalize_campaign : Uuid → Action (Unit {0})
  unfolding list_completed
  finalize_campaign campaign_id = do
    campaign ← require_campaign campaign_id
    completed_rows ← gets (list_completed campaign.id)
    let ranked = sort_ranked completed_rows
    modify (λ s. record s {
      rankings =
          keep (λ r. not (r.campaign_id == campaign.id)) s.rankings
          ++ rankings_from campaign.id 1 ranked;
    })
    run_locked_test_evaluations campaign (take 3 ranked)
    lift (evolve campaign (take 3 ranked))
    modify (update_campaign campaign.id (conclude ranked))
    record_decision (record {
      decision_type = campaign_finalization;
      campaign_id = campaign.id;
      experiment_id = none;
      count = length ranked;
    })

  unfoldable pub refresh_campaign_state : Uuid → Action (Unit {0})
  refresh_campaign_state campaign_id = do
    campaign ← require_campaign campaign_id
    jobs ← gets (list_jobs campaign.id)
    if any (λ j. is_active j.status) jobs
        then modify
            (update_campaign campaign.id (λ c. record c { status = CampaignStatus.running }))
        else if any (λ j. is_failed j.status) jobs
        then modify (update_campaign campaign.id (λ c. record c { status = CampaignStatus.failed }))
        else if nonempty jobs
        then finalize_campaign campaign.id
        else pure tt

  unfoldable pub dispatch : JobType → Job → Action (Unit {0})
  dispatch JobType.run_backtest job = run_campaign_experiment research job
  dispatch JobType.generate_report job = finalize_campaign job.campaign_id
  dispatch (JobType.unknown t) job = raise (value_error "unknown job type")

  -- The `try` block up to the second check.
  unfoldable pub attempt_job : Job → Action (Unit {0})
  attempt_job job = do raise_if_cancelled job.id; dispatch job.job_type job

  unfoldable pub execute_claimed_job : Instant → ℕ → Bool → Uuid → String → Action (Unit {0})
  execute_claimed_job now runtime cancel_during job_id worker_name = do
    job ← require_job job_id
    raise_when (not (is_leased_by worker_name job)) (value_error "job is not leased by this worker")
    (λ s.
        let (r, s') = attempt_job job s in
        (close_job now runtime job >> refresh_campaign_state job.campaign_id)
          (settle_job now cancel_during job r s'))

  unfoldable pub process_next_job : Instant → ℕ → String → Action (Unit {0})
  process_next_job now runtime worker_name = do
    found ← claim_next_job now worker_name
    elim found [
      | none ↦ pure tt
      | some job ↦ execute_claimed_job now runtime false job.id worker_name
    ]

  unfoldable pub recover_campaign : Instant → Campaign → Action ℕ
  recover_campaign now campaign = do
    missing ← gets (missing_jobs campaign.id)
    restored ← create_jobs now campaign missing
    if nonempty restored
        then (modify
              (update_campaign campaign.id (λ c. record c { status = CampaignStatus.queued }))
            >> record_decision (record {
              decision_type = campaign_recovery;
              campaign_id = campaign.id;
              experiment_id = none;
              count = length restored;
            }))
        else pure tt
    refresh_campaign_state campaign.id
    pure (length restored)

  unfoldable pub recover_all : Instant → List Campaign → Action ℕ
  recover_all now [] = pure 0
  recover_all now (c ∷ cs) = do
    restored ← recover_campaign now c
    rest ← recover_all now cs
    pure (restored + rest)

  unfoldable pub recover_interrupted_campaigns : Instant → Action ℕ
  recover_interrupted_campaigns now = do
    campaigns ← gets (λ s. keep (λ c. is_interruptible c.status) s.campaigns)
    recover_all now campaigns
