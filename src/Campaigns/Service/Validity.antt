-- ===== src/Campaigns/Service/Validity.antt =====
-- The invariant of the job table, and its growth (app/campaigns/service.py).
use mercury_trading.Base.{ℕ, ◌≡◌, ◌≤◌, ◌<◌, max, false, List, [], ◌∷◌, ◌++◌, arith, All, ◌==◌}
use mercury_trading.Campaigns.Service.Model.{Uuid, Job, JobStatus}
use mercury_trading.Campaigns.Service.Jobs.{is_eligible, lease, cancel_row, retry_or_fail}
use mercury_trading.Campaigns.Service.Rows.{
  JobStep, leased, beat, cancel_asked, swept, retried, aborted, finished, closed, tagged, JobSteps,
  here, next, JobSteps-trans, Evolves, All-Evolves,
}
use mercury_trading.Campaigns.Service.Execution.{DistinctIds}
use mercury_trading.Campaigns.Service.Planning.{has_key}

-- How often a job may have been attempted, by its status.
abbrev pub Attempts : JobStatus → ℕ → ℕ → Type 0
Attempts JobStatus.queued a m = a ≡ 0
Attempts JobStatus.retrying a m = a < m
Attempts JobStatus.running a m = (1 ≤ a) × (a ≤ max 1 m)
Attempts _ a m = a ≤ max 1 m

abbrev pub IsBounded : Job → Type 0
IsBounded j = Attempts j.status j.attempt_count j.max_attempts

-- No two jobs of one campaign have one idempotency key.
abbrev pub DistinctKeys : List Job → Type 0
DistinctKeys [] = Unit
DistinctKeys (j ∷ js) =
    All (λ k. has_key j.campaign_id j.idempotency_key k ≡ false) js × DistinctKeys js

pub record IsValid (js : List Job) : Type 0 where
  pub ids : DistinctIds js
  pub keys : DistinctKeys js
  pub bounded : All IsBounded js

-- Each old row has gone on with its life, and new rows stand behind them.
abbrev pub Extends : List Job → List Job → Type 0
Extends [] ks = Unit
Extends (j ∷ js) [] = ⊥
Extends (j ∷ js) (k ∷ ks) = JobSteps j k × Extends js ks

IsBounded-step : (j k : Job) → JobStep j k → IsBounded j → IsBounded k
unfolding is_eligible lease cancel_row retry_or_fail
IsBounded-step j k (leased now w h e) b = rw e (ground arith)
IsBounded-step j k (beat now r e) b = rw e b
IsBounded-step j k (cancel_asked now e) b = rw e (ground arith)
IsBounded-step j k (swept now w e) b = rw e (ground arith)
IsBounded-step j k (retried now exc force r e) b = rw e (ground arith)
IsBounded-step j k (aborted r e) b = rw e (ground arith)
IsBounded-step j k (finished r e) b = rw e (ground arith)
IsBounded-step j k (closed now runtime e) b = rw e b
IsBounded-step j k (tagged i e) b = rw e b

-- The columns that no operation writes.
abbrev SameColumns : Job → Job → Type 0
SameColumns j k =
    (k.id ≡ j.id)
    × (k.campaign_id ≡ j.campaign_id)
    × (k.idempotency_key ≡ j.idempotency_key)
    × (k.max_attempts ≡ j.max_attempts)

step-SameColumns : (j k : Job) → JobStep j k → SameColumns j k
unfolding lease cancel_row retry_or_fail
step-SameColumns j k (leased now w h e) = rw e (ground arith)
step-SameColumns j k (beat now r e) = rw e (ground arith)
step-SameColumns j k (cancel_asked now e) = rw e (ground arith)
step-SameColumns j k (swept now w e) = rw e (ground arith)
step-SameColumns j k (retried now exc force r e) = rw e (ground arith)
step-SameColumns j k (aborted r e) = rw e (ground arith)
step-SameColumns j k (finished r e) = rw e (ground arith)
step-SameColumns j k (closed now runtime e) = rw e (ground arith)
step-SameColumns j k (tagged i e) = rw e (ground arith)

pub steps-SameColumns : {j k : Job} → JobSteps j k → SameColumns j k
steps-SameColumns here = ground arith
steps-SameColumns (next {k} {l} q st) = ground (arith, steps-SameColumns q, step-SameColumns k l st)

ne_id-step : (i : Uuid) (j k : Job) → JobStep j k → (j.id == i) ≡ false → (k.id == i) ≡ false
ne_id-step i j k st h = ground (arith, step-SameColumns j k st)

ne_key-step :
    (c key : Uuid) (j k : Job) → JobStep j k → has_key c key j ≡ false → has_key c key k ≡ false
unfolding has_key
ne_key-step c key j k st h = ground (arith, step-SameColumns j k st)

DistinctIds-Evolves : (js ks : List Job) → Evolves js ks → DistinctIds js → DistinctIds ks
DistinctIds-Evolves [] [] e d = tt
DistinctIds-Evolves [] (k ∷ ks) e d = elim e [ ]
DistinctIds-Evolves (j ∷ js) [] e d = elim e [ ]
DistinctIds-Evolves (j ∷ js) (k ∷ ks) (e, es) (d, ds) =
    let same = (steps-SameColumns e).0 in
    (rw same (All-Evolves _ (ne_id-step j.id) js ks es d), DistinctIds-Evolves js ks es ds)

DistinctKeys-Evolves : (js ks : List Job) → Evolves js ks → DistinctKeys js → DistinctKeys ks
DistinctKeys-Evolves [] [] e d = tt
DistinctKeys-Evolves [] (k ∷ ks) e d = elim e [ ]
DistinctKeys-Evolves (j ∷ js) [] e d = elim e [ ]
DistinctKeys-Evolves (j ∷ js) (k ∷ ks) (e, es) (d, ds) =
    let (_, c, key, _) = steps-SameColumns e in
    (
      rw (c, key) (All-Evolves _ (ne_key-step j.campaign_id j.idempotency_key) js ks es d),
      DistinctKeys-Evolves js ks es ds,
    )

-- What only evolves the rows keeps the invariant.
pub IsValid-Evolves : (js ks : List Job) → Evolves js ks → IsValid js → IsValid ks
IsValid-Evolves js ks e v = record {
  ids = DistinctIds-Evolves js ks e v.ids;
  keys = DistinctKeys-Evolves js ks e v.keys;
  bounded = All-Evolves IsBounded IsBounded-step js ks e v.bounded;
}

pub Extends-of_Evolves : (js ks : List Job) → Evolves js ks → Extends js ks
Extends-of_Evolves [] ks e = tt
Extends-of_Evolves (j ∷ js) [] e = elim e [ ]
Extends-of_Evolves (j ∷ js) (k ∷ ks) (e, es) = (e, Extends-of_Evolves js ks es)

pub Extends-trans : (js ks ls : List Job) → Extends js ks → Extends ks ls → Extends js ls
Extends-trans [] ks ls p q = tt
Extends-trans (j ∷ js) [] ls p q = elim p [ ]
Extends-trans (j ∷ js) (k ∷ ks) [] p q = elim q [ ]
Extends-trans (j ∷ js) (k ∷ ks) (l ∷ ls) (p, ps) (q, qs) =
    (JobSteps-trans p q, Extends-trans js ks ls ps qs)

pub Extends-append : (js ks : List Job) → Extends js (js ++ ks)
Extends-append [] ks = tt
Extends-append (j ∷ js) ks = (here, Extends-append js ks)
