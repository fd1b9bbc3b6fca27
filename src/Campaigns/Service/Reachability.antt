-- ===== src/Campaigns/Service/Reachability.antt =====
-- The job queue as a state machine: every operation of `CampaignService` (app/campaigns/service.py),
-- called by any client or worker in any order.
use mercury_trading.Base.{
  ℕ, ◌≡◌, refl, subst, Bool, true, Option, some, List, [], ◌∷◌, arith, ◌==◌, find, String, inl, inr,
  Bool-cases,
}
use mercury_trading.Campaigns.Service.Model.{Uuid, Instant, Job, JobStatus, Store}
use mercury_trading.Campaigns.Service.Jobs.{
  is_terminal, claim_next_job, heartbeat, cancel_job, recover_stale_jobs, is_eligible, lease,
  cancel_row, retry_or_fail,
}
use mercury_trading.Campaigns.Service.Experiments.{Research}
use mercury_trading.Campaigns.Service.Planning.{run_campaign}
use mercury_trading.Campaigns.Service.Lifecycle.{
  cancel_campaign, execute_claimed_job, recover_interrupted_campaigns,
}
use mercury_trading.Campaigns.Service.Rows.{
  JobStep, leased, beat, cancel_asked, swept, retried, aborted, finished, closed, tagged, JobSteps,
  here, next, Evolves,
}
use mercury_trading.Campaigns.Service.Execution.{execute-Evolves, cancel_job-Evolves}
use mercury_trading.Campaigns.Service.Sweeps.{
  claim-Evolves, heartbeat-Evolves, recover_stale-Evolves, cancel_campaign-Evolves,
}
use mercury_trading.Campaigns.Service.Creation.{
  run_campaign-KeepsValid, recover_interrupted-KeepsValid,
}
use mercury_trading.Campaigns.Service.Validity.{
  IsValid, Extends, Extends-of_Evolves, Extends-trans, IsValid-Evolves, steps-SameColumns,
}

module _ (research : Research) where
  -- One committed transaction.
  pub data Step (s : Store) : Store → Type 0 where
    run : (now : Instant) (i : Uuid) (size : Option ℕ) → Step s (run_campaign now i size s).1
    cancel_all : (now : Instant) (i : Uuid) → Step s (cancel_campaign now i s).1
    cancel_one : (now : Instant) (i : Uuid) → Step s (cancel_job now i s).1
    claim : (now : Instant) (w : String) → Step s (claim_next_job now w s).1
    beat_once : (now : Instant) (i : Uuid) (w : String) → Step s (heartbeat now i w s).1
    sweep : (now : Instant) (seconds : ℕ) → Step s (recover_stale_jobs now seconds s).1
    recover : (now : Instant) → Step s (recover_interrupted_campaigns research now s).1
    execute :
        (now : Instant) (runtime : ℕ) (cancel : Bool) (i : Uuid) (w : String)
        → Step s (execute_claimed_job research now runtime cancel i w s).1

  pub data Reach (s : Store) : Store → Type 0 where
    start : Reach s s
    then_step : {t u : Store} → Reach s t → Step t u → Reach s u

  evolving : (js ks : List Job) → Evolves js ks → IsValid js → IsValid ks × Extends js ks
  evolving js ks e v = (IsValid-Evolves _ _ e v, Extends-of_Evolves _ _ e)

  Step-keeps : {s t : Store} → Step s t → IsValid s.jobs → IsValid t.jobs × Extends s.jobs t.jobs
  Step-keeps {s} (run now i size) v =
      let k = run_campaign-KeepsValid now i size in (k.valid s v, k.extends s)
  Step-keeps {s} (recover now) v =
      let k = recover_interrupted-KeepsValid research now in (k.valid s v, k.extends s)
  Step-keeps {s} (cancel_all now i) v = evolving s.jobs _ (cancel_campaign-Evolves now i s) v
  Step-keeps {s} (cancel_one now i) v = evolving s.jobs _ (cancel_job-Evolves now i s) v
  Step-keeps {s} (claim now w) v = evolving s.jobs _ (claim-Evolves now w s v.ids) v
  Step-keeps {s} (beat_once now i w) v = evolving s.jobs _ (heartbeat-Evolves now i w s v.ids) v
  Step-keeps {s} (sweep now n) v = evolving s.jobs _ (recover_stale-Evolves now n s) v
  Step-keeps {s} (execute now runtime cancel i w) v =
      evolving s.jobs _ (execute-Evolves research now runtime cancel i w s v.ids) v

  Extends-refl : (js : List Job) → Extends js js
  Extends-refl [] = tt
  Extends-refl (j ∷ js) = (here, Extends-refl js)

  Reach-keeps : {s t : Store} → Reach s t → IsValid s.jobs → IsValid t.jobs × Extends s.jobs t.jobs
  Reach-keeps {s} start v = (v, Extends-refl s.jobs)
  Reach-keeps (then_step r st) v =
      let (w, e) = Reach-keeps r v in
      let (w', e') = Step-keeps st w in (w', Extends-trans _ _ _ e e')

  -- In every store that committed calls of the campaign service reach, in any order, from a store
  -- with a valid job table, the job table is valid: job ids are distinct, no two jobs of one
  -- campaign share an idempotency key, and no job was attempted more often than its limit (at
  -- least one) allows.
  pub Reach-IsValid : {s t : Store} → Reach s t → IsValid s.jobs → IsValid t.jobs
  Reach-IsValid r v = (Reach-keeps r v).0

  -- A row that went on from another one.
  abbrev Found : (Job → Type 0) → Uuid → List Job → Type 0
  Found P i js = (k : Job) × (find (λ j. j.id == i) js ≡ some k) × P k

  find-Extends :
      (i : Uuid) (js ks : List Job) (j : Job)
      → Extends js ks
      → find (λ x. x.id == i) js ≡ some j
      → Found (JobSteps j) i ks
  find-Extends i [] ks j e h = absurd (ground arith)
  find-Extends i (x ∷ js) [] j e h = elim e [ ]
  find-Extends i (x ∷ js) (k ∷ ks) j (e, es) h =
      let same = (steps-SameColumns e).0 in
      elim (Bool-cases (x.id == i)) [
        | inl at ↦
            let this : x ≡ j = ground arith in
            (k, ground arith, subst (λ (y : Job). JobSteps y k) this e)
        | inr off ↦
            let (l, found, st) = find-Extends i js ks j es (ground arith) in (l, ground arith, st)
      ]

  terminal-step :
      (s : JobStatus) (j k : Job) → JobStep j k → is_terminal s ≡ true → j.status ≡ s → k.status ≡ s
  unfolding is_eligible lease cancel_row retry_or_fail
  terminal-step s j k (leased now w h e) t p = rw e (absurd (ground arith))
  terminal-step s j k (beat now r e) t p = rw e p
  terminal-step s j k (cancel_asked now e) t p = rw e (ground arith)
  terminal-step s j k (swept now w e) t p = absurd (ground arith)
  terminal-step s j k (retried now exc force r e) t p = absurd (ground arith)
  terminal-step s j k (aborted r e) t p = absurd (ground arith)
  terminal-step s j k (finished r e) t p = absurd (ground arith)
  terminal-step s j k (closed now runtime e) t p = rw e p
  terminal-step s j k (tagged i e) t p = rw e p

  terminal-steps :
      (s : JobStatus) {j k : Job}
      → JobSteps j k
      → is_terminal s ≡ true
      → j.status ≡ s
      → k.status ≡ s
  terminal-steps s here t p = p
  terminal-steps s (next {k} {l} q st) t p = terminal-step s k l st t (terminal-steps s q t p)

  -- From a store with a valid job table, a job that has succeeded, failed or been cancelled is
  -- still there, with that status, after any further committed calls.
  pub Reach-terminal :
      {s t : Store} (i : Uuid) {j : Job}
      → Reach s t
      → IsValid s.jobs
      → find (λ x. x.id == i) s.jobs ≡ some j
      → is_terminal j.status ≡ true
      → (k : Job) × (find (λ x. x.id == i) t.jobs ≡ some k) × (k.status ≡ j.status)
  Reach-terminal i {j} r v h t =
      let (k, found, st) = find-Extends i _ _ j (Reach-keeps r v).1 h in
      (k, found, terminal-steps j.status st t refl)
