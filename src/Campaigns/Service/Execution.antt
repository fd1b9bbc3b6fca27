-- ===== src/Campaigns/Service/Execution.antt =====
-- Every operation on the queue evolves the job rows (app/campaigns/service.py).
use mercury_trading.Base.{
  ℕ, ◌≡◌, refl, sym, subst, Bool, true, false, some, List, [], ◌∷◌, arith, All, find, ◌==◌, Result,
  ok, err, String, Bool-cases, Option-cases, inl, inr, All-of,
}
use mercury_trading.Campaigns.Service.Model.{Uuid, Instant, Job, Exc, Store}
use mercury_trading.Campaigns.Service.Action.{
  ◌>>=◌, ◌>>◌, update_rows, update_job, require_job, require_campaign,
}
use mercury_trading.Campaigns.Service.Jobs.{is_running, is_leased_by, cancel_row, cancel_job}
use mercury_trading.Campaigns.Service.Rows.{
  JobStep, cancel_asked, retried, aborted, finished, closed, Evolves, Evolves-refl, Evolves-trans,
  Evolves-of_Tags, update_rows-Evolves, All-Tags,
}
use mercury_trading.Campaigns.Service.Experiments.{Research}
use mercury_trading.Campaigns.Service.Settling.{
  settle_job, settle_checked, interrupt, close_job, handle_failure, raise_if_cancelled,
}
use mercury_trading.Campaigns.Service.Lifecycle.{
  attempt_job, execute_claimed_job, refresh_campaign_state,
}
use mercury_trading.Campaigns.Service.Work.{attempt_job-TagsJobs, refresh-TagsJobs}

-- No two rows have one id.
abbrev pub DistinctIds : List Job → Type 0
DistinctIds [] = Unit
DistinctIds (j ∷ js) = All (λ k. (k.id == j.id) ≡ false) js × DistinctIds js

abbrev pub Any : Job → Type 0
Any j = Unit

pub Any-job : (js : List Job) → All Any js
Any-job js = All-of Any (λ j. tt) js

-- The rows with this id are running.
abbrev pub RunningAt : Uuid → Job → Type 0
RunningAt i j = (j.id == i) ≡ true → is_running j.status ≡ true

RunningAt-ne : (i : Uuid) (js : List Job) → All (λ k. (k.id == i) ≡ false) js → All (RunningAt i) js
RunningAt-ne i [] a = tt
RunningAt-ne i (j ∷ js) a = (λ h. cc (a.0), RunningAt-ne i js a.1)

pub find-id :
    (i : Uuid) (js : List Job) (job : Job) → find (λ j. j.id == i) js ≡ some job → job.id ≡ i
find-id i [] job e = cc
find-id i (j ∷ js) job e = ground (arith, find-id i js job)

-- With distinct ids, the row that `get` finds is the only one with its id.
pub find-RunningAt :
    (i : Uuid) (js : List Job) (job : Job)
    → DistinctIds js
    → find (λ j. j.id == i) js ≡ some job
    → is_running job.status ≡ true
    → All (RunningAt job.id) js
find-RunningAt i [] job d e r = tt
find-RunningAt i (j ∷ js) job d e r = elim (Bool-cases (j.id == i)) [
  | inl found ↦
      let same : j ≡ job = ground arith in
      subst (λ (k : Job). All (RunningAt k.id) (j ∷ js)) same
        (
          (λ _. subst (λ (k : Job). is_running k.status ≡ true) (sym same) r),
          RunningAt-ne j.id js d.0,
        )
  | inr other ↦
      let rest : find (λ (k : Job). k.id == i) js ≡ some job = ground arith in
      let at = find-id i js job rest in ((λ h. ground arith), find-RunningAt i js job d.1 rest r)
]

pub is_leased_by-running :
    (w : String) (j : Job) → is_leased_by w j ≡ true → is_running j.status ≡ true
unfolding is_leased_by
is_leased_by-running w j h = ground arith

All-update_rows :
    (P : Job → Type 0) (picked : Job → Bool) (f : Job → Job)
    → ((j : Job) → P j → P (f j))
    → (js : List Job) → All P js
    → All P (update_rows picked f js)
unfolding update_rows
All-update_rows P picked f h [] a = tt
All-update_rows P picked f h (j ∷ js) a = elim (Bool-cases (picked j)) [
  | inl e ↦ rw e (h j a.0, All-update_rows P picked f h js a.1)
  | inr e ↦ rw e (a.0, All-update_rows P picked f h js a.1)
]

pub cancel_job-Evolves :
    (now : Instant) (i : Uuid) (s : Store) → Evolves s.jobs (cancel_job now i s).1.jobs
unfolding cancel_job require_job ◌>>=◌
cancel_job-Evolves now i s = elim (Option-cases (find (λ j. j.id == i) s.jobs)) [
  | inl e ↦ rw e (Evolves-refl s.jobs)
  | inr (j, e) ↦ rw e (
      update_rows-Evolves Any _ (cancel_row now) (λ k _ _. cancel_asked now refl) s.jobs
        (Any-job s.jobs))
]

cancel_row-RunningAt :
    (now : Instant) (i : Uuid) (j : Job) → RunningAt i j → RunningAt i (cancel_row now j)
unfolding cancel_row
cancel_row-RunningAt now i j h = ground arith

cancel_job-RunningAt :
    (now : Instant) (i k : Uuid) (s : Store)
    → All (RunningAt k) s.jobs
    → All (RunningAt k) (cancel_job now i s).1.jobs
unfolding cancel_job require_job ◌>>=◌
cancel_job-RunningAt now i k s a = elim (Option-cases (find (λ j. j.id == i) s.jobs)) [
  | inl e ↦ rw e a
  | inr (j, e) ↦ rw e (All-update_rows _ _ (cancel_row now) (cancel_row-RunningAt now k) s.jobs a)
]

set_status-Evolves :
    (i : Uuid) (f : Job → Job)
    → ((j : Job) → is_running j.status ≡ true → JobStep j (f j))
    → (s : Store) → All (RunningAt i) s.jobs
    → Evolves s.jobs (update_job i f s).jobs
set_status-Evolves i f step s a =
    update_rows-Evolves (RunningAt i) _ f (λ j p e. step j (p e)) s.jobs a

failure_step :
    (now : Instant) (exc : Exc) (seen : Bool) (j : Job)
    → is_running j.status ≡ true
    → JobStep j (handle_failure now exc seen j)
unfolding handle_failure
failure_step now exc true j r = aborted r refl
failure_step now exc false j r = retried now exc false r refl

interrupt-Evolves :
    (now : Instant) (cancel : Bool) (i : Uuid) (s : Store)
    → Evolves s.jobs (interrupt now cancel i s).jobs
unfolding interrupt
interrupt-Evolves now true i s = cancel_job-Evolves now i s
interrupt-Evolves now false i s = Evolves-refl s.jobs

interrupt-RunningAt :
    (now : Instant) (cancel : Bool) (i : Uuid) (s : Store)
    → All (RunningAt i) s.jobs
    → All (RunningAt i) (interrupt now cancel i s).jobs
unfolding interrupt
interrupt-RunningAt now true i s a = cancel_job-RunningAt now i i s a
interrupt-RunningAt now false i s a = a

settle_checked-Evolves :
    (now : Instant) (job : Job) (r : Result Exc (Unit {0})) (s : Store)
    → All (RunningAt job.id) s.jobs
    → Evolves s.jobs (settle_checked now job r s).jobs
unfolding settle_checked
settle_checked-Evolves now job (ok _) s a = set_status-Evolves job.id _ (λ j p. finished p refl) s a
settle_checked-Evolves now job (err exc) s a =
    set_status-Evolves job.id (λ j. handle_failure now exc j.cancel_requested j)
      (λ j p. failure_step now exc j.cancel_requested j p) s a

settle_job-Evolves :
    (now : Instant) (cancel : Bool) (job : Job) (r : Result Exc (Unit {0})) (s : Store)
    → All (RunningAt job.id) s.jobs
    → Evolves s.jobs (settle_job now cancel job r s).jobs
unfolding settle_job
settle_job-Evolves now cancel job (ok _) s a =
    let s' = interrupt now cancel job.id s in
    Evolves-trans _ _ _ (interrupt-Evolves now cancel job.id s) (
      settle_checked-Evolves now job (raise_if_cancelled job.id s').0 s'
        (interrupt-RunningAt now cancel job.id s a))
settle_job-Evolves now cancel job (err exc) s a =
    let s' = interrupt now cancel job.id s in
    Evolves-trans _ _ _ (interrupt-Evolves now cancel job.id s) (
      set_status-Evolves job.id _ (failure_step now exc job.cancel_requested) s'
        (interrupt-RunningAt now cancel job.id s a))

module _ (research : Research) (now : Instant) where
  close_job-Evolves :
      (runtime : ℕ) (job : Job) (s : Store)
      → Evolves s.jobs
          ((close_job now runtime job >> refresh_campaign_state research job.campaign_id) s).1.jobs
  unfolding close_job require_campaign ◌>>=◌
  close_job-Evolves runtime job s =
      let first =
        update_rows-Evolves Any (λ j. j.id == job.id)
          (λ j. record j { ended_at = some now; runtime = some runtime })
          (λ j _ _. closed now runtime refl) s.jobs (Any-job s.jobs) in
      elim (Option-cases (find (λ c. c.id == job.campaign_id) s.campaigns)) [
        | inl e ↦ rw e first
        | inr (c, e) ↦ rw e (
            Evolves-trans _ _ _ first
              (Evolves-of_Tags _ _ ((refresh-TagsJobs research job.campaign_id).on _)))
      ]

  execute_tail-Evolves :
      (runtime : ℕ) (cancel : Bool) (job : Job) (s : Store)
      → All (RunningAt job.id) s.jobs
      → let (r, s') = attempt_job research job s in
        Evolves s.jobs
          ((close_job now runtime job >> refresh_campaign_state research job.campaign_id)
            (settle_job now cancel job r s')).1.jobs
  execute_tail-Evolves runtime cancel job s a =
      let (r, s') = attempt_job research job s in
      let tags = (attempt_job-TagsJobs research job).on s in
      Evolves-trans _ _ _ (Evolves-of_Tags _ _ tags) (
        Evolves-trans _ _ _
          (settle_job-Evolves now cancel job r s'
            (All-Tags (RunningAt job.id) (λ j i p. p) _ _ tags a))
          (close_job-Evolves runtime job _))

  -- For distinct job ids, executing a job, whatever the work does and whether or not its
  -- cancellation is requested meanwhile, keeps the number and order of the job rows and moves each
  -- of them by steps of the job's life only.
  pub execute-Evolves :
      (runtime : ℕ) (cancel : Bool) (i : Uuid) (w : String) (s : Store)
      → DistinctIds s.jobs
      → Evolves s.jobs (execute_claimed_job research now runtime cancel i w s).1.jobs
  unfolding execute_claimed_job require_job ◌>>=◌
  execute-Evolves runtime cancel i w s d = elim (Option-cases (find (λ j. j.id == i) s.jobs)) [
    | inl e ↦ rw e (Evolves-refl s.jobs)
    | inr (job, e) ↦ elim (Bool-cases (is_leased_by w job)) [
      | inl held ↦
          rw (e, held)
            (execute_tail-Evolves runtime cancel job s
              (find-RunningAt i s.jobs job d e (is_leased_by-running w job held)))
      | inr free ↦ rw (e, free) (Evolves-refl s.jobs)
    ]
  ]
