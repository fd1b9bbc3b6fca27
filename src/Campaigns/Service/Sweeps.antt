-- ===== src/Campaigns/Service/Sweeps.antt =====
-- Claiming, heartbeats, recovery of expired leases and the cancellation of a campaign evolve the job
-- rows (app/campaigns/service.py).
use mercury_trading.Base.{
  ℕ, ◌-◌, ◌≡◌, refl, sym, subst, true, false, ◌&&◌, Option, none, some, List, [], ◌∷◌, arith, All,
  find, ◌==◌, ◌⊎◌, inl, inr, Bool-cases, Option-cases, String,
}
use mercury_trading.Campaigns.Service.Model.{Uuid, Instant, Job, Store}
use mercury_trading.Campaigns.Service.Action.{◌>>=◌, require_job, require_campaign}
use mercury_trading.Campaigns.Service.Jobs.{
  is_waiting, is_running, is_eligible, is_stale, is_leased_by, better, is_ahead, next_eligible,
  lease, claim_next_job, heartbeat, recover_stale_jobs, retry_or_fail, lease_expired, seconds,
}
use mercury_trading.Campaigns.Service.Rows.{
  leased, beat, swept, retried, Evolves, Evolves-refl, update_rows-Evolves,
}
use mercury_trading.Campaigns.Service.Lifecycle.{cancel_campaign, cancel_waiting, of_campaign}
use mercury_trading.Campaigns.Service.Execution.{
  DistinctIds, Any, Any-job, RunningAt, find-RunningAt, find-id, is_leased_by-running,
}

abbrev Member : Job → List Job → Type 0
Member j [] = ⊥
Member j (k ∷ ks) = (j ≡ k) ⊎ Member j ks

ne_id-Member :
    (i : Uuid) (j : Job) (js : List Job)
    → All (λ k. (k.id == i) ≡ false) js
    → Member j js
    → (j.id == i) ≡ false
ne_id-Member i j [] a m = elim m [ ]
ne_id-Member i j (k ∷ ks) a (inl e) = subst (λ (x : Job). (x.id == i) ≡ false) (sym e) a.0
ne_id-Member i j (k ∷ ks) a (inr m) = ne_id-Member i j ks a.1 m

All-at_ne :
    (P : Job → Type 0) (i : Uuid) (js : List Job)
    → All (λ k. (k.id == i) ≡ false) js
    → All (λ k. (k.id == i) ≡ true → P k) js
All-at_ne P i [] a = tt
All-at_ne P i (k ∷ ks) a = ((λ h. absurd (ground arith)), All-at_ne P i ks a.1)

-- With distinct ids, what holds of a row holds of every row with its id.
All-at :
    (P : Job → Type 0) (j : Job) (js : List Job)
    → DistinctIds js
    → Member j js
    → P j
    → All (λ k. (k.id == j.id) ≡ true → P k) js
All-at P j [] d m p = elim m [ ]
All-at P j (k ∷ ks) d (inl e) p =
    subst (λ (x : Job). All (λ y. (y.id == x.id) ≡ true → P y) (k ∷ ks)) (sym e)
      ((λ _. subst P e p), All-at_ne P k.id ks d.0)
All-at P j (k ∷ ks) d (inr m) p =
    ((λ h. absurd (let ne = ne_id-Member k.id j ks d.0 m in ground arith)), All-at P j ks d.1 m p)

better-Member :
    (j k : Job) (js : List Job) (rest : Option Job)
    → ((x : Job) → rest ≡ some x → Member x js)
    → better j rest ≡ some k
    → Member k (j ∷ js)
better-Member j k js none h e = inl (ground arith)
better-Member j k js (some r) h e = elim (Bool-cases (is_ahead r j)) [
  | inl ahead ↦
      let chosen : ◌≡◌ {A = Option Job} (some r) (some k) = ground arith in inr (h k chosen)
  | inr behind ↦ inl (ground arith)
]

next_eligible-Member :
    (now : Instant) (js : List Job) (j : Job) → next_eligible now js ≡ some j → Member j js
unfolding next_eligible
next_eligible-Member now [] j e = elim (false_of e) [ ]
  where
    false_of : ◌≡◌ {A = Option Job} none (some j) → ⊥
    false_of h = cc
next_eligible-Member now (k ∷ ks) j e = elim (Bool-cases (is_eligible now k)) [
  | inl good ↦
      better-Member k j ks (next_eligible now ks) (next_eligible-Member now ks) (ground arith)
  | inr bad ↦ inr (next_eligible-Member now ks j (ground arith))
]

next_eligible-eligible :
    (now : Instant) (js : List Job) (j : Job)
    → next_eligible now js ≡ some j
    → is_eligible now j ≡ true
unfolding next_eligible
next_eligible-eligible now [] j e = cc
next_eligible-eligible now (k ∷ ks) j e = elim (Option-cases (next_eligible now ks)) [
  | inl nothing ↦ ground arith
  | inr (r, found) ↦ ground (arith, next_eligible-eligible now ks r found)
]

pub claim-Evolves :
    (now : Instant) (w : String) (s : Store)
    → DistinctIds s.jobs
    → Evolves s.jobs (claim_next_job now w s).1.jobs
unfolding claim_next_job ◌>>=◌
claim-Evolves now w s d = elim (Option-cases (next_eligible now s.jobs)) [
  | inl e ↦ rw e (Evolves-refl s.jobs)
  | inr (j, e) ↦
      let at =
        All-at (λ k. is_eligible now k ≡ true) j s.jobs d (next_eligible-Member now s.jobs j e)
          (next_eligible-eligible now s.jobs j e) in
      rw e (
        update_rows-Evolves (λ k. (k.id == j.id) ≡ true → is_eligible now k ≡ true)
          (λ k. k.id == j.id) (lease now w) (λ k p picked. leased now w (p picked) refl) s.jobs at)
]

pub heartbeat-Evolves :
    (now : Instant) (i : Uuid) (w : String) (s : Store)
    → DistinctIds s.jobs
    → Evolves s.jobs (heartbeat now i w s).1.jobs
unfolding heartbeat require_job ◌>>=◌
heartbeat-Evolves now i w s d = elim (Option-cases (find (λ j. j.id == i) s.jobs)) [
  | inl e ↦ rw e (Evolves-refl s.jobs)
  | inr (job, e) ↦ elim (Bool-cases (is_leased_by w job)) [
    | inl held ↦
        let at = find-RunningAt i s.jobs job d e (is_leased_by-running w job held) in
        let same = find-id i s.jobs job e in
        rw (e, held)
          (update_rows-Evolves (RunningAt i) (λ k. k.id == i) _
            (λ k p picked. beat now (p picked) refl) s.jobs (rw same at at))
    | inr free ↦ rw (e, free) (Evolves-refl s.jobs)
  ]
]

stale-running : (cutoff : Instant) (j : Job) → is_stale cutoff j ≡ true → is_running j.status ≡ true
unfolding is_stale
stale-running cutoff j h = ground arith

pub recover_stale-Evolves :
    (now : Instant) (n : ℕ) (s : Store) → Evolves s.jobs (recover_stale_jobs now n s).1.jobs
unfolding recover_stale_jobs ◌>>=◌
recover_stale-Evolves now n s =
    let cutoff = now - seconds n in
    update_rows-Evolves Any (is_stale cutoff) (retry_or_fail now lease_expired true)
      (λ k _ picked. retried now lease_expired true (stale-running cutoff k picked) refl) s.jobs
      (Any-job s.jobs)

pub cancel_waiting-Evolves :
    (now : Instant) (i : Uuid) (js : List Job) → Evolves js (cancel_waiting now i js)
unfolding cancel_waiting
cancel_waiting-Evolves now i js =
    update_rows-Evolves Any (λ j. of_campaign i j && is_waiting j.status) _
      (λ k _ picked. swept now (ground arith) refl) js (Any-job js)

pub cancel_campaign-Evolves :
    (now : Instant) (i : Uuid) (s : Store) → Evolves s.jobs (cancel_campaign now i s).1.jobs
unfolding cancel_campaign require_campaign ◌>>=◌
cancel_campaign-Evolves now i s = elim (Option-cases (find (λ c. c.id == i) s.campaigns)) [
  | inl e ↦ rw e (Evolves-refl s.jobs)
  | inr (c, e) ↦ rw e (cancel_waiting-Evolves now c.id s.jobs)
]
