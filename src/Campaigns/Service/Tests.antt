-- ===== src/Campaigns/Service/Tests.antt =====
-- Runs of the campaign service (app/campaigns/service.py).
use mathlib.Core.List.{Memᴰ}
use mercury_trading.Base.{
  ◌+◌, ◌-◌, ◌≡◌, ◌≤◌, refl, max, true, false, ◌&&◌, none, some, [], ◌∷◌, arith, All, find, length,
  ltb, ◌==◌, ok, err,
}
use mercury_trading.Base.Int.{pos}
use mercury_trading.Campaigns.Splits.Defs.{TemporalSplit}
use mercury_trading.Campaigns.Service.Model.{
  Job, JobStatus, JobType, connection_error, timeout_error, Campaign, CampaignStatus, Experiment,
  planned, Store,
}
use mercury_trading.Campaigns.Service.Jobs.{
  is_eligible, is_stale, is_waiting, seconds, lease, lease_expired, retry_or_fail, claim_next_job,
  recover_stale_jobs, next_eligible, is_ahead,
}
use mercury_trading.Campaigns.Service.Action.{◌>>=◌, update_job}
use mercury_trading.Campaigns.Service.Stress.{stress_failure_completes}
use mercury_trading.Campaigns.Service.Experiments.{run_campaign_experiment, Research}
use mercury_trading.Campaigns.Service.Planning.{has_key}
use mercury_trading.Campaigns.Service.Lifecycle.{
  of_campaign, cancel_campaign, refresh_campaign_state, execute_claimed_job,
}
use mercury_trading.Campaigns.Service.Rows.{Evolves}
use mercury_trading.Campaigns.Service.Execution.{execute-Evolves}
use mercury_trading.Campaigns.Service.Leasing.{IsFirst, claim_selects}
use mercury_trading.Campaigns.Service.Stranded.{
  Polls, none_yet, then_claim, expired_cancelled_stuck,
}
use mercury_trading.Campaigns.Service.Validity.{IsValid}
use mercury_trading.Campaigns.Service.Reachability.{
  Reach, start, then_step, claim, execute, Reach-IsValid, Reach-terminal,
}
use mercury_trading.Campaigns.Service.Retries.{retry_or_fail_lem}
use mercury_trading.Campaigns.Service.Cancellation.{cancel_campaign_lem, cancelled_campaign_reopens}

-- Backtests that all succeed, with no risk flag.
abbrev calm : Research
calm = record {
  run_backtest_on = λ c e p. ok p.start;
  detect_overfitting = λ c train validation. [];
  stress_flags = λ c i. ok [];
  outranks = λ e f. ltb e.id f.id;
  evolve = λ c es. ok none;
}

abbrev split : TemporalSplit
split = record {
  train = record { start = 0; end = 60 };
  validation = record { start = 60; end = 80 };
  test = record { start = 80; end = 100 };
}

abbrev campaign : Campaign
campaign = record {
  id = 7;
  constraints = record {
    max_job_attempts = none;
    job_priority = none;
    require_stress_testing = false;
  };
  start_date = 0;
  split_definition = split;
  status = CampaignStatus.queued;
  budget_used = record { experiments = 0; runtime = 0; test_evaluations = 0 };
  candidate_strategies = [];
  rejected_strategies = [];
}

abbrev experiment : Experiment
experiment = record {
  id = 20;
  campaign_id = 7;
  experiment_id = none;
  long_window = 5;
  status = planned;
  evaluation = none;
  risk_flags = [];
}

abbrev job : Job
job = record {
  id = 1;
  campaign_id = 7;
  campaign_experiment_id = some 20;
  experiment_id = none;
  job_type = JobType.run_backtest;
  status = JobStatus.queued;
  idempotency_key = 20;
  worker = none;
  priority = pos 0;
  attempt_count = 0;
  max_attempts = 3;
  started_at = none;
  ended_at = none;
  heartbeat_at = none;
  available_at = 0;
  cancel_requested = false;
  retry_history = [];
  error = none;
  runtime = none;
  created_at = 0;
}

-- A second job, that is done.
abbrev done : Job
done = record job { id = 2; idempotency_key = 21; status = JobStatus.succeeded; attempt_count = 1 }

-- A job that runs on `w`.
abbrev running_job : Job
running_job = lease 3 "w" job

abbrev store : Store
store = record {
  campaigns = campaign ∷ [];
  experiments = experiment ∷ [];
  jobs = job ∷ done ∷ [];
  rankings = [];
  decisions = [];
}

store-IsValid : IsValid store.jobs
unfolding has_key
store-IsValid = record { ids = ground arith; keys = ground arith; bounded = ground arith }

abbrev claimed : Store
claimed = (claim_next_job 3 "w" store).1

abbrev executed : Store
executed = (execute_claimed_job calm 9 100 false 1 "w" claimed).1

run_one : Reach calm store executed
run_one = then_step (then_step start (claim 3 "w")) (execute 9 100 false 1 "w")

Reach-IsValid_example : IsValid executed.jobs
Reach-IsValid_example = Reach-IsValid calm run_one store-IsValid

Reach-terminal_example :
    (k : Job) × (find (λ x. x.id == 2) executed.jobs ≡ some k) × (k.status ≡ JobStatus.succeeded)
Reach-terminal_example = Reach-terminal calm 2 run_one store-IsValid refl refl

-- The claim takes the waiting job.
claim_store : (claim_next_job 3 "w" store).0 ≡ ok (some running_job)
unfolding claim_next_job next_eligible is_eligible is_ahead ◌>>=◌
claim_store = refl

claim_selects_example :
    (j : Job) × Memᴰ j store.jobs
    × (running_job ≡ lease 3 "w" j)
    × (is_eligible 3 j ≡ true)
    × IsFirst 3 j store.jobs
    × (claimed ≡ update_job j.id (lease 3 "w") store)
claim_selects_example = claim_selects 3 "w" store claim_store

-- A store whose only job is done.
abbrev idle : Store
idle = record store { jobs = done ∷ [] }

claim_idle : (claim_next_job 3 "w" idle).0 ≡ ok none
unfolding claim_next_job next_eligible is_eligible ◌>>=◌
claim_idle = refl

retry_or_fail_lem_example :
    let k = retry_or_fail 9 (connection_error "reset") false running_job in
    (k.status ≡ JobStatus.retrying)
    × (k.available_at ≤ max 0 (9 + seconds 60))
    × (k.worker ≡ none)
    × (length k.retry_history ≡ 1)
    × (k.attempt_count ≡ 1)
unfolding lease
retry_or_fail_lem_example = retry_or_fail_lem 9 (connection_error "reset") false running_job

abbrev asked : Job
asked = record running_job { cancel_requested = true }

abbrev asked_store : Store
asked_store = record store { jobs = asked ∷ done ∷ [] }

-- Five minutes after 100 seconds the lease has expired.
asked-is_stale : is_stale (400_000_000 - seconds 300) asked ≡ true
unfolding is_stale lease
asked-is_stale = refl

abbrev swept : Store
swept = (recover_stale_jobs 400_000_000 300 asked_store).1

polled : Polls swept (claim_next_job 900_000_000 "w" swept).1
polled = then_claim 900_000_000 "w" none_yet

expired_cancelled_stuck_example :
    let k = retry_or_fail 400_000_000 lease_expired true asked in
    (is_waiting k.status ≡ true) × Memᴰ k (claim_next_job 900_000_000 "w" swept).1.jobs
unfolding lease
expired_cancelled_stuck_example =
    expired_cancelled_stuck 400_000_000 300 asked asked_store ((ground arith, tt), (tt, tt))
      (Memᴰ.head refl) asked-is_stale refl (omega arith) polled

cancel_campaign_lem_example :
    let t = (cancel_campaign 9 7 store).1 in
    (find (λ x. x.id == 7) t.campaigns
      ≡ some (record campaign { status = CampaignStatus.cancelled }))
    × All (λ j. (of_campaign 7 j && is_eligible 1000 j) ≡ false) t.jobs
cancel_campaign_lem_example = cancel_campaign_lem 9 1000 7 store refl

-- The store while its first job runs.
abbrev busy : Store
busy = record store { jobs = running_job ∷ done ∷ [] }

cancelled_campaign_reopens_example :
    find (λ x. x.id == 7) (refresh_campaign_state calm 7 (cancel_campaign 9 7 busy).1).1.campaigns
    ≡ some (record campaign { status = CampaignStatus.running })
unfolding lease
cancelled_campaign_reopens_example = cancelled_campaign_reopens calm 9 7 busy refl refl

execute-Evolves_example : Evolves busy.jobs (execute_claimed_job calm 9 100 true 1 "w" busy).1.jobs
unfolding lease
execute-Evolves_example = execute-Evolves calm 9 100 true 1 "w" busy (ground arith)

-- A campaign whose stress tests are asked for, and time out.
abbrev strict : Campaign
strict = record campaign {
  constraints = record campaign.constraints { require_stress_testing = true };
}

abbrev slow : Research
slow = record calm { stress_flags = λ c i. err (timeout_error "stress") }

abbrev strict_store : Store
strict_store = record store { campaigns = strict ∷ []; jobs = running_job ∷ [] }

stress_failure_completes_example :
    let (r, t) = run_campaign_experiment slow running_job strict_store in
    (r ≡ err (timeout_error "stress")) × (run_campaign_experiment calm running_job t ≡ (ok tt, t))
unfolding lease
stress_failure_completes_example =
    stress_failure_completes slow strict experiment calm running_job strict_store
      (timeout_error "stress") refl refl refl refl (λ p. (p.start, refl)) refl (λ u. refl)
