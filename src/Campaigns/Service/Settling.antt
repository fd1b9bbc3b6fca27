-- ===== src/Campaigns/Service/Settling.antt =====
-- How the execution of a leased job ends (app/campaigns/service.py).
use mercury_trading.Base.{ℕ, ◌+◌, Bool, false, none, some, if◌then◌else◌, Result, ok, err}
use mercury_trading.Campaigns.Service.Model.{
  Uuid, Instant, Job, JobStatus, Exc, runtime_error, Store,
}
use mercury_trading.Campaigns.Service.Action.{
  Action, ◌>>=◌, ◌>>◌, modify, raise_when, update_campaign, update_job, require_campaign,
  require_job,
}
use mercury_trading.Campaigns.Service.Jobs.{retry_or_fail, cancel_job}

-- `_raise_if_cancelled`: the row is read anew.
unfoldable pub raise_if_cancelled : Uuid → Action (Unit {0})
raise_if_cancelled job_id = do
  job ← require_job job_id
  raise_when job.cancel_requested (runtime_error "job cancellation requested")

-- The `except` clause, with the flag that the session read last.
unfoldable pub handle_failure : Instant → Exc → Bool → Job → Job
handle_failure now exc cancel_seen j =
    if cancel_seen
    then record j { status = JobStatus.cancelled; error = none }
    else retry_or_fail now exc false j

-- What another session's `cancel_job` does in the meantime.
unfoldable pub interrupt : Instant → Bool → Uuid → Store → Store
interrupt now cancel_during i s = if cancel_during then (cancel_job now i s).1 else s

-- After the second check: the job has succeeded, or the check raised.
unfoldable pub settle_checked : Instant → Job → Result Exc (Unit {0}) → Store → Store
settle_checked now job (ok _) s =
    update_job job.id (λ j. record j { status = JobStatus.succeeded }) s
settle_checked now job (err exc) s =
    update_job job.id (λ j. handle_failure now exc j.cancel_requested j) s

-- The end of the `try` statement. `cancel_during` says that another session requested the
-- cancellation of the job while it ran: the second check reads that, and an exception of the work
-- itself finds the flag as it was read at the start.
unfoldable pub settle_job : Instant → Bool → Job → Result Exc (Unit {0}) → Store → Store
unfolding interrupt settle_checked
settle_job now cancel_during job (ok _) s =
    let s' = interrupt now cancel_during job.id s in
    settle_checked now job (raise_if_cancelled job.id s').0 s'
settle_job now cancel_during job (err exc) s =
    update_job job.id (handle_failure now exc job.cancel_requested)
      (interrupt now cancel_during job.id s)

-- The `finally` block.
unfoldable pub close_job : Instant → ℕ → Job → Action (Unit {0})
close_job now runtime job = do
  modify (update_job job.id (λ j. record j { ended_at = some now; runtime = some runtime }))
  campaign ← require_campaign job.campaign_id
  modify (
      update_campaign campaign.id (λ c. record c {
        budget_used = record c.budget_used { runtime = c.budget_used.runtime + runtime };
      }))
