-- ===== src/Campaigns/Service/Rows.antt =====
-- The life of a job row: the only ways in which the methods of `CampaignService`
-- (app/campaigns/service.py) change one.
use mercury_trading.Base.{
  ℕ, ◌≡◌, refl, ap, ◌∙◌, Bool, true, Option, none, some, List, [], ◌∷◌, String, All, Bool-cases,
  inl, inr,
}
use mercury_trading.Campaigns.Service.Model.{Uuid, Instant, Job, JobStatus, Exc}
use mercury_trading.Campaigns.Service.Action.{update_rows}
use mercury_trading.Campaigns.Service.Jobs.{
  is_waiting, is_running, is_eligible, lease, cancel_row, retry_or_fail,
}

-- One write to a row.
pub data JobStep (j k : Job) : Type 0 where
  leased : (now : Instant) (w : String) → is_eligible now j ≡ true → k ≡ lease now w j → JobStep j k
  beat :
      (now : Instant)
      → is_running j.status ≡ true
      → k ≡ record j { heartbeat_at = some now }
      → JobStep j k
  cancel_asked : (now : Instant) → k ≡ cancel_row now j → JobStep j k
  swept :
      (now : Instant)
      → is_waiting j.status ≡ true
      → k ≡ record j { status = JobStatus.cancelled; ended_at = some now }
      → JobStep j k
  retried :
      (now : Instant) (exc : Exc) (force : Bool)
      → is_running j.status ≡ true
      → k ≡ retry_or_fail now exc force j
      → JobStep j k
  aborted :
      is_running j.status ≡ true
      → k ≡ record j { status = JobStatus.cancelled; error = none }
      → JobStep j k
  finished :
      is_running j.status ≡ true → k ≡ record j { status = JobStatus.succeeded } → JobStep j k
  closed :
      (now : Instant) (runtime : ℕ)
      → k ≡ record j { ended_at = some now; runtime = some runtime }
      → JobStep j k
  tagged : (i : Option Uuid) → k ≡ record j { experiment_id = i } → JobStep j k

pub data JobSteps (j : Job) : Job → Type 0 where
  here : JobSteps j j
  next : {k l : Job} → JobSteps j k → JobStep k l → JobSteps j l

pub one_step : {j k : Job} → JobStep j k → JobSteps j k
one_step st = next here st

pub JobSteps-trans : {j k l : Job} → JobSteps j k → JobSteps k l → JobSteps j l
JobSteps-trans p here = p
JobSteps-trans p (next q st) = next (JobSteps-trans p q) st

-- Two lists of the same length whose rows are related one by one.
abbrev pub Pointwise : {A : Type 0} → (A → A → Type 0) → List A → List A → Type 0
Pointwise R [] [] = Unit
Pointwise R [] (y ∷ ys) = ⊥
Pointwise R (x ∷ xs) [] = ⊥
Pointwise R (x ∷ xs) (y ∷ ys) = R x y × Pointwise R xs ys

abbrev pub Evolves : List Job → List Job → Type 0
Evolves = Pointwise JobSteps

pub Evolves-refl : (js : List Job) → Evolves js js
Evolves-refl [] = tt
Evolves-refl (j ∷ js) = (here, Evolves-refl js)

pub Evolves-trans : (js ks ls : List Job) → Evolves js ks → Evolves ks ls → Evolves js ls
Evolves-trans [] [] [] p q = tt
Evolves-trans [] [] (l ∷ ls) p q = elim q [ ]
Evolves-trans [] (k ∷ ks) ls p q = elim p [ ]
Evolves-trans (j ∷ js) [] ls p q = elim p [ ]
Evolves-trans (j ∷ js) (k ∷ ks) [] p q = elim q [ ]
Evolves-trans (j ∷ js) (k ∷ ks) (l ∷ ls) (p, ps) (q, qs) =
    (JobSteps-trans p q, Evolves-trans js ks ls ps qs)

pub Evolves-of_eq : (js ks : List Job) → ks ≡ js → Evolves js ks
Evolves-of_eq js ks e = rw e (Evolves-refl js)

-- A write to selected rows, where each selected row makes one step.
pub update_rows-Evolves :
    (P : Job → Type 0) (picked : Job → Bool) (f : Job → Job)
    → ((j : Job) → P j → picked j ≡ true → JobStep j (f j))
    → (js : List Job) → All P js
    → Evolves js (update_rows picked f js)
unfolding update_rows
update_rows-Evolves P picked f h [] a = tt
update_rows-Evolves P picked f h (j ∷ js) a = elim (Bool-cases (picked j)) [
  | inl e ↦ rw e (one_step (h j a.0 e), update_rows-Evolves P picked f h js a.1)
  | inr e ↦ rw e (here, update_rows-Evolves P picked f h js a.1)
]

-- What every step of a row keeps, every evolution keeps.
module _ (P : Job → Type 0) (keeps : (j k : Job) → JobStep j k → P j → P k) where
  pub JobSteps-keeps : {j k : Job} → JobSteps j k → P j → P k
  JobSteps-keeps here p = p
  JobSteps-keeps (next {k} {l} q st) p = keeps k l st (JobSteps-keeps q p)

  pub All-Evolves : (js ks : List Job) → Evolves js ks → All P js → All P ks
  All-Evolves [] [] e a = tt
  All-Evolves [] (k ∷ ks) e a = elim e [ ]
  All-Evolves (j ∷ js) [] e a = tt
  All-Evolves (j ∷ js) (k ∷ ks) (e, es) (p, ps) = (JobSteps-keeps e p, All-Evolves js ks es ps)

-- The rows differ at most in their `experiment_id`.
abbrev pub Tagged : Job → Job → Type 0
Tagged j k = (i : Option Uuid) × (k ≡ record j { experiment_id = i })

abbrev pub Tags : List Job → List Job → Type 0
Tags = Pointwise Tagged

pub Tags-refl : (js : List Job) → Tags js js
Tags-refl [] = tt
Tags-refl (j ∷ js) = ((j.experiment_id, refl), Tags-refl js)

Tagged-trans : (j k l : Job) → Tagged j k → Tagged k l → Tagged j l
Tagged-trans j k l (i, p) (i', q) = (i', q ∙ ap (λ (m : Job). record m { experiment_id = i' }) p)

pub Tags-trans : (js ks ls : List Job) → Tags js ks → Tags ks ls → Tags js ls
Tags-trans [] [] [] p q = tt
Tags-trans [] [] (l ∷ ls) p q = elim q [ ]
Tags-trans [] (k ∷ ks) ls p q = elim p [ ]
Tags-trans (j ∷ js) [] ls p q = elim p [ ]
Tags-trans (j ∷ js) (k ∷ ks) [] p q = elim q [ ]
Tags-trans (j ∷ js) (k ∷ ks) (l ∷ ls) (p, ps) (q, qs) =
    (Tagged-trans j k l p q, Tags-trans js ks ls ps qs)

pub Evolves-of_Tags : (js ks : List Job) → Tags js ks → Evolves js ks
Evolves-of_Tags [] [] t = tt
Evolves-of_Tags [] (k ∷ ks) t = elim t [ ]
Evolves-of_Tags (j ∷ js) [] t = elim t [ ]
Evolves-of_Tags (j ∷ js) (k ∷ ks) ((i, e), ts) = (one_step (tagged i e), Evolves-of_Tags js ks ts)

pub update_rows-Tags :
    (picked : Job → Bool) (i : Option Uuid) (js : List Job)
    → Tags js (update_rows picked (λ j. record j { experiment_id = i }) js)
unfolding update_rows
update_rows-Tags picked i [] = tt
update_rows-Tags picked i (j ∷ js) = elim (Bool-cases (picked j)) [
  | inl e ↦ rw e ((i, refl), update_rows-Tags picked i js)
  | inr e ↦ rw e ((j.experiment_id, refl), update_rows-Tags picked i js)
]

pub All-Tags :
    (P : Job → Type 0)
    → ((j : Job) (i : Option Uuid) → P j → P (record j { experiment_id = i }))
    → (js ks : List Job) → Tags js ks
    → All P js
    → All P ks
All-Tags P h [] [] t a = tt
All-Tags P h [] (k ∷ ks) t a = elim t [ ]
All-Tags P h (j ∷ js) [] t a = elim t [ ]
All-Tags P h (j ∷ js) (k ∷ ks) ((i, e), ts) (p, ps) = (rw e (h j i p), All-Tags P h js ks ts ps)
