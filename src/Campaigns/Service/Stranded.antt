-- ===== src/Campaigns/Service/Stranded.antt =====
-- What becomes of a row whose cancellation was requested while it ran, once its worker is lost:
-- `recover_stale_jobs` and `claim_next_job` (app/campaigns/service.py).
use mathlib.Core.List.{Memᴰ}
use mercury_trading.Base.{
  ℕ, ◌-◌, ◌≡◌, ◌<◌, refl, sym, ap, ◌∙◌, ◌==◌, Bool, true, false, some, List, [], ◌∷◌, arith, All,
  String, if◌then◌else◌, Bool-cases, Option-cases, inl, inr, subst,
}
use mercury_trading.Campaigns.Service.Model.{Instant, Job, Store}
use mercury_trading.Campaigns.Service.Action.{◌>>=◌, update_rows}
use mercury_trading.Campaigns.Service.Jobs.{
  is_waiting, is_eligible, is_stale, retry_or_fail, lease, lease_expired, seconds, next_eligible,
  claim_next_job, recover_stale_jobs,
}
use mercury_trading.Campaigns.Service.Execution.{DistinctIds}
use mercury_trading.Campaigns.Service.Leasing.{Selects, next_eligible-Selects}

-- Claims of any workers and sweeps of expired leases, in any order and at any times.
pub data Polls : Store → Store → Type 0 where
  none_yet : {s : Store} → Polls s s
  then_claim :
      {s t : Store} (now : Instant) (w : String) → Polls s t → Polls s (claim_next_job now w t).1
  then_sweep :
      {s t : Store} (now : Instant) (n : ℕ) → Polls s t → Polls s (recover_stale_jobs now n t).1

-- The row is in the list, and no other row has its id.
abbrev pub IsOnly : Job → List Job → Type 0
IsOnly k js = Memᴰ k js × All (λ x. x.id ≡ k.id → x ≡ k) js

All-at : (P : Job → Type 0) (x : Job) (js : List Job) → All P js → Memᴰ x js → P x
All-at P x [] h m = elim m [ ]
All-at P x (j ∷ js) (h, hs) (Memᴰ.head e) = subst P (sym e) h
All-at P x (j ∷ js) (h, hs) (Memᴰ.tail m) = All-at P x js hs m

module _ (p : Job → Bool) (f : Job → Job) (same_id : (x : Job) → (f x).id ≡ x.id) where
  -- What the write makes of a row.
  abbrev written : Job → Job
  written x = if p x then f x else x

  written-id : (x : Job) → (written x).id ≡ x.id
  written-id x = elim (Bool-cases (p x)) [ inl at ↦ rw at (same_id x) | inr off ↦ rw off refl ]

  Mem-written : (k : Job) (js : List Job) → Memᴰ k js → Memᴰ (written k) (update_rows p f js)
  unfolding update_rows
  Mem-written k [] m = elim m [ ]
  Mem-written k (j ∷ js) (Memᴰ.head e) = Memᴰ.head (ap written e)
  Mem-written k (j ∷ js) (Memᴰ.tail m) = Memᴰ.tail (Mem-written k js m)

  alone-written :
      (k : Job) (js : List Job)
      → All (λ x. x.id ≡ k.id → x ≡ k) js
      → All (λ x. x.id ≡ (written k).id → x ≡ written k) (update_rows p f js)
  unfolding update_rows
  alone-written k [] h = tt
  alone-written k (x ∷ xs) (h, hs) =
      ((λ e. ap written (h (sym (written-id x) ∙ e ∙ written-id k))), alone-written k xs hs)

  update_rows-IsOnly :
      (k : Job) (js : List Job) → IsOnly k js → IsOnly (written k) (update_rows p f js)
  update_rows-IsOnly k js (m, h) = (Mem-written k js m, alone-written k js h)

  -- A row that is not written to stays as it is.
  update_rows-keeps :
      (k : Job) (js : List Job) → p k ≡ false → IsOnly k js → IsOnly k (update_rows p f js)
  update_rows-keeps k js off only =
      subst (λ x. IsOnly x (update_rows p f js)) (let e : written k ≡ k = rw off refl in e)
        (update_rows-IsOnly k js only)

retry_or_fail-id : (now : Instant) (j : Job) → (retry_or_fail now lease_expired true j).id ≡ j.id
unfolding retry_or_fail
retry_or_fail-id now j = ground arith

-- A row that waits to be cancelled is not eligible, whatever the time.
asked-not-eligible :
    (now : Instant) (k : Job) → k.cancel_requested ≡ true → is_eligible now k ≡ false
unfolding is_eligible
asked-not-eligible now k asked = ground arith

waiting-not-stale :
    (cutoff : Instant) (k : Job) → is_waiting k.status ≡ true → is_stale cutoff k ≡ false
unfolding is_stale
waiting-not-stale cutoff k waits = ground arith

sweep-keeps :
    (now : Instant) (n : ℕ) (k : Job) (s : Store)
    → is_waiting k.status ≡ true
    → IsOnly k s.jobs
    → IsOnly k (recover_stale_jobs now n s).1.jobs
unfolding recover_stale_jobs ◌>>=◌
sweep-keeps now n k s waits only =
    update_rows-keeps (is_stale (now - seconds n)) (retry_or_fail now lease_expired true)
      (retry_or_fail-id now) k s.jobs (waiting-not-stale _ k waits) only

lease-id : (now : Instant) (w : String) (x : Job) → (lease now w x).id ≡ x.id
unfolding lease
lease-id now w x = refl

claim-keeps :
    (now : Instant) (w : String) (k : Job) (s : Store)
    → k.cancel_requested ≡ true
    → IsOnly k s.jobs
    → IsOnly k (claim_next_job now w s).1.jobs
unfolding claim_next_job ◌>>=◌
claim-keeps now w k s asked (m, h) = elim (Option-cases (next_eligible now s.jobs)) [
  | inl e ↦ rw e (m, h)
  | inr (c, e) ↦
      let chosen : Selects now s.jobs (some c) = rw e at (next_eligible-Selects now s.jobs) in
      let other : (k.id == c.id) ≡ false = elim (Bool-cases (k.id == c.id)) [
        | inl at ↦
            let same : c ≡ k =
              All-at (λ x. x.id ≡ k.id → x ≡ k) c s.jobs h chosen.2 (ground arith) in
            let no = asked-not-eligible now k asked in
            let yes : is_eligible now k ≡ true =
              subst (λ x. is_eligible now x ≡ true) same chosen.0 in
            absurd (ground arith)
        | inr off ↦ off
      ] in
      rw e
        (update_rows-keeps (λ j. j.id == c.id) (lease now w) (lease-id now w) k s.jobs other (m, h))
]

Polls-keeps :
    (k : Job) {s t : Store}
    → is_waiting k.status ≡ true
    → k.cancel_requested ≡ true
    → IsOnly k s.jobs
    → Polls s t
    → IsOnly k t.jobs
Polls-keeps k waits asked only none_yet = only
Polls-keeps k waits asked only (then_claim {t = t} now w ps) =
    claim-keeps now w k t asked (Polls-keeps k waits asked only ps)
Polls-keeps k waits asked only (then_sweep {t = t} now n ps) =
    sweep-keeps now n k t waits (Polls-keeps k waits asked only ps)

others-apart :
    (x j : Job) (js : List Job)
    → All (λ k. (k.id == x.id) ≡ false) js
    → Memᴰ j js
    → (j.id == x.id) ≡ false
others-apart x j js apart m = All-at (λ k. (k.id == x.id) ≡ false) j js apart m

apart-alone :
    (j : Job) (js : List Job)
    → All (λ k. (k.id == j.id) ≡ false) js
    → All (λ x. x.id ≡ j.id → x ≡ j) js
apart-alone j [] h = tt
apart-alone j (x ∷ xs) (h, hs) = ((λ e. absurd (ground arith)), apart-alone j xs hs)

DistinctIds-alone :
    (j : Job) (js : List Job) → DistinctIds js → Memᴰ j js → All (λ x. x.id ≡ j.id → x ≡ j) js
DistinctIds-alone j [] d m = elim m [ ]
DistinctIds-alone j (x ∷ xs) (apart, distinct) (Memᴰ.head e) =
    ((λ _. sym e), subst (λ y. All (λ x. x.id ≡ y.id → x ≡ y) xs) (sym e) (apart-alone x xs apart))
DistinctIds-alone j (x ∷ xs) (apart, distinct) (Memᴰ.tail m) =
    let differs = others-apart x j xs apart m in
    ((λ e. absurd (ground arith)), DistinctIds-alone j xs distinct m)

retried_asked :
    (now : Instant) (j : Job)
    → j.cancel_requested ≡ true
    → j.attempt_count < j.max_attempts
    → let k = retry_or_fail now lease_expired true j in
      (is_waiting k.status ≡ true) × (k.cancel_requested ≡ true)
unfolding retry_or_fail
retried_asked now j asked left = ground arith

-- Let a table of jobs with different ids have a running row whose lease has expired, whose
-- cancellation was requested and which has attempts left. The sweep of expired leases puts the row
-- back to wait, and after any claims and sweeps, by any workers and at any times, the waiting row
-- is in the table as the first sweep left it: it is never leased, failed or cancelled by them.
pub expired_cancelled_stuck :
    (now : Instant) (n : ℕ) (j : Job) (s : Store)
    → DistinctIds s.jobs
    → Memᴰ j s.jobs
    → is_stale (now - seconds n) j ≡ true
    → j.cancel_requested ≡ true
    → j.attempt_count < j.max_attempts
    → {t : Store} → Polls (recover_stale_jobs now n s).1 t
    → let k = retry_or_fail now lease_expired true j in (is_waiting k.status ≡ true) × Memᴰ k t.jobs
unfolding recover_stale_jobs ◌>>=◌
expired_cancelled_stuck now n j s distinct stored stale asked left {t} polls =
    let (waits, kept) = retried_asked now j asked left in
    let cutoff = now - seconds n in
    let f = retry_or_fail now lease_expired true in
    let swept : IsOnly (f j) (update_rows (is_stale cutoff) f s.jobs) =
      subst (λ x. IsOnly x (update_rows (is_stale cutoff) f s.jobs))
        (let e : written (is_stale cutoff) f (retry_or_fail-id now) j ≡ f j = rw stale refl in e)
        (update_rows-IsOnly (is_stale cutoff) f (retry_or_fail-id now) j s.jobs
          (stored, DistinctIds-alone j s.jobs distinct stored)) in
    (waits, (Polls-keeps (f j) waits kept swept polls).0)
