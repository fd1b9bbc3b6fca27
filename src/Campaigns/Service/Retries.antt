-- ===== src/Campaigns/Service/Retries.antt =====
-- What a failed attempt leads to: `_retry_or_fail` (app/campaigns/service.py).
use mercury_trading.Base.{
  ◌+◌, ◌≡◌, ◌≤◌, refl, max, Bool, ◌&&◌, ◌||◌, none, arith, ltb, if◌then◌else◌, length,
  length-append, Bool-cases, inl, inr,
}
use mercury_trading.Campaigns.Service.Model.{Instant, Job, JobStatus, Exc}
use mercury_trading.Campaigns.Service.Jobs.{is_transient, retry_or_fail, seconds}

-- A failed attempt leads to a retry, with no worker, exactly when the failure is transient or the
-- retry forced, and attempts are left; otherwise the job has failed and keeps its worker. The job
-- is available no later than a minute from now or than it was, its history grows by one entry, and
-- its attempts are not counted again.
pub retry_or_fail_lem :
    (now : Instant) (exc : Exc) (force : Bool) (j : Job)
    → let k = retry_or_fail now exc force j in
      let again = (force || is_transient exc) && ltb j.attempt_count j.max_attempts in
      (k.status ≡ (if again then JobStatus.retrying else JobStatus.failed))
      × (k.available_at ≤ max j.available_at (now + seconds 60))
      × (k.worker ≡ (if again then none else j.worker))
      × (length k.retry_history ≡ length j.retry_history + 1)
      × (k.attempt_count ≡ j.attempt_count)
unfolding retry_or_fail
retry_or_fail_lem now exc force j =
    elim (Bool-cases ((force || is_transient exc) && ltb j.attempt_count j.max_attempts)) [
      | inl e ↦ rw e (refl, omega arith, refl, length-append {0} j.retry_history _, refl)
      | inr e ↦ rw e (refl, omega arith, refl, length-append {0} j.retry_history _, refl)
    ]
