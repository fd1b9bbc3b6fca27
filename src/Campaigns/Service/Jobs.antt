-- ===== src/Campaigns/Service/Jobs.antt =====
-- The job queue of `CampaignService` (app/campaigns/service.py): leasing, heartbeats, retries,
-- cancellation of a job and recovery of expired leases.
use mercury_trading.Base.{
  ℕ, ◌+◌, ◌-◌, ◌*◌, ◌^◌, min, Bool, true, false, not, ◌&&◌, ◌||◌, Option, none, some, List, [], ◌∷◌,
  ◌++◌, keep, length, ltb, leb, if◌then◌else◌, String, str_eq,
}
use mercury_trading.Base.Int.{ltb_ℤ, leb_ℤ}
use mercury_trading.Campaigns.Service.Model.{
  Uuid, Instant, Job, JobStatus, RetryEntry, Exc, connection_error, timeout_error,
  operational_error, runtime_error,
}
use mercury_trading.Campaigns.Service.Action.{
  Action, pure, ◌>>=◌, ◌>>◌, gets, modify, update_job, update_rows, require_job,
}

-- `timedelta(seconds=n)`
abbrev pub seconds : ℕ → ℕ
seconds n = n * 1_000_000

-- `status in {"QUEUED", "RETRYING"}`
abbrev pub is_waiting : JobStatus → Bool
is_waiting JobStatus.queued = true
is_waiting JobStatus.retrying = true
is_waiting _ = false

abbrev pub is_running : JobStatus → Bool
is_running JobStatus.running = true
is_running _ = false

abbrev pub is_failed : JobStatus → Bool
is_failed JobStatus.failed = true
is_failed _ = false

abbrev pub is_cancelled : JobStatus → Bool
is_cancelled JobStatus.cancelled = true
is_cancelled _ = false

-- `status in {"SUCCEEDED", "FAILED", "CANCELLED"}`
abbrev pub is_terminal : JobStatus → Bool
is_terminal JobStatus.succeeded = true
is_terminal JobStatus.failed = true
is_terminal JobStatus.cancelled = true
is_terminal _ = false

-- `isinstance(exc, (ConnectionError, TimeoutError, OperationalError))`
abbrev pub is_transient : Exc → Bool
is_transient (connection_error m) = true
is_transient (timeout_error m) = true
is_transient (operational_error m) = true
is_transient _ = false

-- `_retry_or_fail`, on the job's row.
unfoldable pub retry_or_fail : Instant → Exc → Bool → Job → Job
retry_or_fail now exc force_retry j =
    let retryable = (force_retry || is_transient exc) && ltb j.attempt_count j.max_attempts in
    let entry : RetryEntry = record {
      attempt = j.attempt_count;
      recorded_at = now;
      error = exc;
      retryable = retryable;
    } in
    let noted = record j { error = some exc; retry_history = j.retry_history ++ (entry ∷ []) } in
    if retryable
    then record noted {
      status = JobStatus.retrying;
      available_at = now + seconds (min 60 (2 ^ j.attempt_count));
      worker = none;
      heartbeat_at = none;
    }
    else record noted { status = JobStatus.failed }

-- The `where` of `claim_next_job`.
unfoldable pub is_eligible : Instant → Job → Bool
is_eligible now j = is_waiting j.status && leb j.available_at now && not j.cancel_requested

-- The `order_by`: higher priority first, then the older job.
unfoldable pub is_ahead : Job → Job → Bool
is_ahead j k =
    ltb_ℤ k.priority j.priority
    || (leb_ℤ k.priority j.priority && leb_ℤ j.priority k.priority && ltb j.created_at k.created_at)

abbrev pub better : Job → Option Job → Option Job
better j none = some j
better j (some k) = if is_ahead k j then some k else some j

-- `limit(1)` of the sorted rows; between equal rows the earlier one.
unfoldable pub next_eligible : Instant → List Job → Option Job
next_eligible now [] = none
next_eligible now (j ∷ js) =
    let rest = next_eligible now js in if is_eligible now j then better j rest else rest

unfoldable pub lease : Instant → String → Job → Job
lease now worker_name j = record j {
  status = JobStatus.running;
  worker = some worker_name;
  attempt_count = j.attempt_count + 1;
  started_at = some now;
  heartbeat_at = some now;
  error = none;
}

abbrev lease_found : Instant → String → Option Job → Action (Option Job)
lease_found now worker_name none = pure none
lease_found now worker_name (some j) =
    modify (update_job j.id (lease now worker_name)) >> pure (some (lease now worker_name j))

unfoldable pub claim_next_job : Instant → String → Action (Option Job)
claim_next_job now worker_name = do
  found ← gets (λ s. next_eligible now s.jobs)
  lease_found now worker_name found

-- `job.status == "RUNNING" and job.worker == worker_name`
unfoldable pub is_leased_by : String → Job → Bool
is_leased_by worker_name j =
    is_running j.status && elim j.worker [ none ↦ false | some w ↦ str_eq w worker_name ]

unfoldable pub heartbeat : Instant → Uuid → String → Action (Unit {0})
heartbeat now job_id worker_name = do
  job ← require_job job_id
  if is_leased_by worker_name job
      then modify (update_job job_id (λ j. record j { heartbeat_at = some now }))
      else pure tt

-- What `cancel_job` does to the row.
unfoldable pub cancel_row : Instant → Job → Job
cancel_row now j =
    if is_terminal j.status
    then j
    else if is_running j.status
    then record j { cancel_requested = true }
    else record j { status = JobStatus.cancelled; ended_at = some now }

unfoldable pub cancel_job : Instant → Uuid → Action (Unit {0})
cancel_job now job_id = do job ← require_job job_id; modify (update_job job_id (cancel_row now))

-- A running job whose last heartbeat is missing or before the cutoff.
unfoldable pub is_stale : Instant → Job → Bool
is_stale cutoff j =
    is_running j.status && elim j.heartbeat_at [ none ↦ true | some at_time ↦ ltb at_time cutoff ]

abbrev pub lease_expired : Exc
lease_expired = runtime_error "worker lease expired"

unfoldable pub recover_stale_jobs : Instant → ℕ → Action ℕ
unfolding is_stale
recover_stale_jobs now stale_after_seconds = do
  let cutoff = now - seconds stale_after_seconds
  stale ← gets (λ s. keep (is_stale cutoff) s.jobs)
  modify (λ s. record s {
    jobs = update_rows (is_stale cutoff) (retry_or_fail now lease_expired true) s.jobs;
  })
  pure (length stale)
