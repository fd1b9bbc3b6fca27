-- ===== src/Campaigns/Service/Planning.antt =====
-- Creating jobs for the planned experiments: `_create_job` and `run_campaign`
-- (app/campaigns/service.py).
use mercury_trading.Base.{
  ℕ, suc, max, Bool, true, false, ◌&&◌, Option, none, some, List, [], ◌∷◌, ◌++◌, keep, any, take,
  length, ◌==◌, if◌then◌else◌,
}
use mercury_trading.Base.Int.{pos}
use mercury_trading.Campaigns.Service.Model.{
  Uuid, Instant, Job, JobStatus, run_backtest, CampaignStatus, ExperimentStatus, planned, completed,
  value_error, Campaign, Experiment, campaign_queue, Store,
}
use mercury_trading.Campaigns.Service.Action.{
  Action, pure, gets, ◌>>=◌, ◌>>◌, modify, raise_when, update_campaign, record_decision,
  require_campaign,
}

abbrev or_default {ℓ} : {A : Type ℓ} → Option A → A → A
or_default none d = d
or_default (some a) d = a

unfoldable pub new_job : Instant → Campaign → Uuid → Uuid → Job
new_job now campaign experiment_id id = record {
  id = id;
  campaign_id = campaign.id;
  campaign_experiment_id = some experiment_id;
  experiment_id = none;
  job_type = run_backtest;
  status = JobStatus.queued;
  idempotency_key = experiment_id;
  worker = none;
  priority = or_default campaign.constraints.job_priority (pos 0);
  attempt_count = 0;
  max_attempts = or_default campaign.constraints.max_job_attempts 3;
  started_at = none;
  ended_at = none;
  heartbeat_at = none;
  available_at = now;
  cancel_requested = false;
  retry_history = [];
  error = none;
  runtime = none;
  created_at = now;
}

-- The query for an existing job with this key.
unfoldable pub has_key : Uuid → Uuid → Job → Bool
has_key campaign_id key j = j.campaign_id == campaign_id && j.idempotency_key == key

-- `uuid4()`, as far as it matters: an id that no row of the table has.
unfoldable pub fresh_id : List Job → Uuid
fresh_id [] = 0
fresh_id (j ∷ js) = max (suc j.id) (fresh_id js)

-- `_create_job` for a backtest of this experiment; `none` where the campaign has such a job.
unfoldable pub create_job : Instant → Campaign → Uuid → Action (Option Job)
create_job now campaign experiment_id = do
  existing ← gets (λ s. any (has_key campaign.id experiment_id) s.jobs)
  if existing then pure none else (do
    id ← gets (λ s. fresh_id s.jobs)
    let job = new_job now campaign experiment_id id
    modify (λ s. record s { jobs = s.jobs ++ (job ∷ []) })
    pure (some job))

-- The loops that create jobs: the jobs that were created.
abbrev cons_some : Option Job → List Job → List Job
cons_some none js = js
cons_some (some j) js = j ∷ js

unfoldable pub create_jobs : Instant → Campaign → List Experiment → Action (List Job)
create_jobs now campaign [] = pure []
create_jobs now campaign (e ∷ es) = do
  job ← create_job now campaign e.id
  jobs ← create_jobs now campaign es
  pure (cons_some job jobs)

abbrev is_planned : ExperimentStatus → Bool
is_planned planned = true
is_planned completed = false

abbrev pub is_completed : ExperimentStatus → Bool
is_completed planned = false
is_completed completed = true

abbrev pub is_campaign_cancelled : CampaignStatus → Bool
is_campaign_cancelled CampaignStatus.cancelled = true
is_campaign_cancelled _ = false

-- `pending[:batch_size]`
abbrev batch : Option ℕ → List Experiment → List Experiment
batch none es = es
batch (some n) es = take n es

unfoldable pub list_planned : Uuid → Store → List Experiment
list_planned campaign_id s =
    keep (λ e. e.campaign_id == campaign_id && is_planned e.status) s.experiments

abbrev pub nonempty {ℓ} : {A : Type ℓ} → List A → Bool
nonempty [] = false
nonempty (x ∷ xs) = true

unfoldable pub run_campaign : Instant → Uuid → Option ℕ → Action (List Job)
unfolding list_planned
run_campaign now campaign_id batch_size = do
  campaign ← require_campaign campaign_id
  raise_when (is_campaign_cancelled campaign.status)
      (value_error "cancelled campaigns cannot be run")
  pending ← gets (list_planned campaign.id)
  jobs ← create_jobs now campaign (batch batch_size pending)
  if nonempty jobs
      then (modify (update_campaign campaign.id (λ c. record c { status = CampaignStatus.queued }))
          >> record_decision (record {
            decision_type = campaign_queue;
            campaign_id = campaign.id;
            experiment_id = none;
            count = length jobs;
          }))
      else pure tt
  pure jobs
