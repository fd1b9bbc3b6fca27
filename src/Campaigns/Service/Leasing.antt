-- ===== src/Campaigns/Service/Leasing.antt =====
-- A lease is exclusive and follows the queue's order: `claim_next_job` (app/campaigns/service.py).
use mathlib.Core.List.{Memᴰ}
use mercury_trading.Base.{
  ◌≡◌, refl, true, false, ◌&&◌, Option, none, some, List, [], ◌∷◌, arith, All, ok, String,
  Bool-cases, Option-cases, inl, inr,
}
use mercury_trading.Campaigns.Service.Model.{Instant, Job, Store}
use mercury_trading.Campaigns.Service.Action.{◌>>=◌, update_job}
use mercury_trading.Campaigns.Service.Jobs.{
  is_eligible, is_ahead, better, next_eligible, lease, claim_next_job,
}

-- No eligible row of the list is ahead of `j`.
abbrev pub IsFirst : Instant → Job → List Job → Type 0
IsFirst now j = All (λ k. (is_eligible now k && is_ahead k j) ≡ false)

-- What the query returns: nothing, if no row is eligible, or an eligible row that is first.
abbrev pub Selects : Instant → List Job → Option Job → Type 0
Selects now js none = All (λ k. is_eligible now k ≡ false) js
Selects now js (some j) = (is_eligible now j ≡ true) × IsFirst now j js × Memᴰ j js

is_ahead_irrefl : (j : Job) → is_ahead j j ≡ false
unfolding is_ahead
is_ahead_irrefl j = ground arith

is_ahead_asym : (j k : Job) → is_ahead j k ≡ true → is_ahead k j ≡ false
unfolding is_ahead
is_ahead_asym j k h = ground arith

-- What is not ahead of `k` is not ahead of a row that is not behind `k`.
is_ahead_negtrans :
    (j k m : Job) → is_ahead m k ≡ false → is_ahead k j ≡ false → is_ahead m j ≡ false
unfolding is_ahead
is_ahead_negtrans j k m p q = ground arith

IsFirst-of :
    (now : Instant) (j k : Job) (js : List Job)
    → is_ahead k j ≡ false
    → IsFirst now k js
    → IsFirst now j js
IsFirst-of now j k [] h a = tt
IsFirst-of now j k (m ∷ js) h a =
    (ground (arith, is_ahead_negtrans j k m), IsFirst-of now j k js h a.1)

IsFirst-none :
    (now : Instant) (j : Job) (js : List Job)
    → All (λ k. is_eligible now k ≡ false) js
    → IsFirst now j js
IsFirst-none now j [] a = tt
IsFirst-none now j (k ∷ js) a = (ground arith, IsFirst-none now j js a.1)

better-Selects :
    (now : Instant) (j : Job) (js : List Job) (rest : Option Job)
    → is_eligible now j ≡ true
    → Selects now js rest
    → Selects now (j ∷ js) (better j rest)
better-Selects now j js none e s =
    (e, (ground (arith, is_ahead_irrefl j), IsFirst-none now j js s), Memᴰ.head refl)
better-Selects now j js (some k) e (ek, first, stored) = elim (Bool-cases (is_ahead k j)) [
  | inl h ↦ rw h (ek, (ground (arith, is_ahead_asym k j), first), Memᴰ.tail stored)
  | inr h ↦
      rw h (e, (ground (arith, is_ahead_irrefl j), IsFirst-of now j k js h first), Memᴰ.head refl)
]

skip-Selects :
    (now : Instant) (j : Job) (js : List Job) (rest : Option Job)
    → is_eligible now j ≡ false
    → Selects now js rest
    → Selects now (j ∷ js) rest
skip-Selects now j js none e s = (e, s)
skip-Selects now j js (some k) e (ek, first, stored) = (ek, (ground arith, first), Memᴰ.tail stored)

pub next_eligible-Selects : (now : Instant) (js : List Job) → Selects now js (next_eligible now js)
unfolding next_eligible
next_eligible-Selects now [] = tt
next_eligible-Selects now (j ∷ js) = elim (Bool-cases (is_eligible now j)) [
  | inl e ↦ rw e (better-Selects now j js _ e (next_eligible-Selects now js))
  | inr e ↦ rw e (skip-Selects now j js _ e (next_eligible-Selects now js))
]

-- A claim that returns a job leased a row of the table that was eligible and had no eligible row
-- ahead of it in the order of priority and creation; the new store is the old one with that lease
-- written to the rows with its id.
pub claim_selects :
    (now : Instant) (w : String) (s : Store) {job : Job}
    → (claim_next_job now w s).0 ≡ ok (some job)
    → (j : Job) × Memᴰ j s.jobs
      × (job ≡ lease now w j)
      × (is_eligible now j ≡ true)
      × IsFirst now j s.jobs
      × ((claim_next_job now w s).1 ≡ update_job j.id (lease now w) s)
unfolding claim_next_job ◌>>=◌
claim_selects now w s {job} h = elim (Option-cases (next_eligible now s.jobs)) [
  | inl e ↦ absurd (ground arith)
  | inr (j, e) ↦
      let chosen : Selects now s.jobs (some j) = rw e at (next_eligible-Selects now s.jobs) in
      (j, chosen.2, ground arith, chosen.0, chosen.1, rw e)
]

-- A claim that returns no job found no eligible row and changed nothing.
pub claim_nothing :
    (now : Instant) (w : String) (s : Store)
    → (claim_next_job now w s).0 ≡ ok none
    → All (λ k. is_eligible now k ≡ false) s.jobs × ((claim_next_job now w s).1 ≡ s)
unfolding claim_next_job ◌>>=◌
claim_nothing now w s h = elim (Option-cases (next_eligible now s.jobs)) [
  | inl e ↦ (rw e at (next_eligible-Selects now s.jobs), rw e)
  | inr (j, e) ↦ absurd (ground arith)
]
