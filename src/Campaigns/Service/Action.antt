-- ===== src/Campaigns/Service/Action.antt =====
-- A method of `CampaignService`: a change of the tables with a value or an exception. What was written
-- before a raise stays written, as in an open session.
use mercury_trading.Base.{
  Bool, Option, none, some, List, [], ◌∷◌, ◌++◌, find, ◌==◌, if◌then◌else◌, Result, ok, err,
}
use mercury_trading.Campaigns.Service.Model.{
  Uuid, Exc, value_error, Job, Campaign, Experiment, Decision, Store,
}

abbrev pub Action {ℓ} : Type ℓ → Type ℓ
Action A = Store → Result Exc A × Store

module _ {ℓ} {A : Type ℓ} where
  pub pure : A → Action A
  pure a s = (ok a, s)

  pub raise : Exc → Action A
  raise e s = (err e, s)

  pub gets : (Store → A) → Action A
  gets f s = (ok (f s), s)

  pub lift : Result Exc A → Action A
  lift r s = (r, s)

  abbrev pub or_error : Option A → Exc → Result Exc A
  or_error none e = err e
  or_error (some a) e = ok a

  pub or_raise : Option A → Exc → Action A
  or_raise o e s = (or_error o e, s)

pub modify : (Store → Store) → Action (Unit {0})
modify f s = (ok tt, f s)

pub raise_when : Bool → Exc → Action (Unit {0})
raise_when c e s = (if c then err e else ok tt, s)

abbrev pub continue {ℓ κ} : {A : Type ℓ} {B : Type κ} → Result Exc A → (A → Action B) → Action B
continue (ok a) f s = f a s
continue (err e) f s = (err e, s)

-- Opening this opens the actions above.
infixl 5 ◌>>=◌ ◌>>◌
unfoldable pub ◌>>=◌ {ℓ κ} : {A : Type ℓ} {B : Type κ} → Action A → (A → Action B) → Action B
unfolding pure raise gets lift or_raise modify raise_when
◌>>=◌ m f s = let (r, s') = m s in continue r f s'

abbrev pub ◌>>◌ {ℓ κ} : {A : Type ℓ} {B : Type κ} → Action A → Action B → Action B
m >> k = m >>= λ _. k

-- Writes to the attributes of the row with this id.
module _ {ℓ} {A : Type ℓ} where
  unfoldable pub update_rows : (A → Bool) → (A → A) → List A → List A
  update_rows here f [] = []
  update_rows here f (x ∷ xs) = (if here x then f x else x) ∷ update_rows here f xs

abbrev pub update_job : Uuid → (Job → Job) → Store → Store
update_job i f s = record s { jobs = update_rows (λ j. j.id == i) f s.jobs }

abbrev pub update_campaign : Uuid → (Campaign → Campaign) → Store → Store
update_campaign i f s = record s { campaigns = update_rows (λ c. c.id == i) f s.campaigns }

abbrev pub update_experiment : Uuid → (Experiment → Experiment) → Store → Store
update_experiment i f s = record s { experiments = update_rows (λ e. e.id == i) f s.experiments }

-- `DecisionService.record`: the ledger only grows.
abbrev pub record_decision : Decision → Action (Unit {0})
record_decision d = modify λ s. record s { decisions = s.decisions ++ (d ∷ []) }

unfoldable pub require_job : Uuid → Action Job
require_job i = do
  jobs ← gets (λ s. s.jobs)
  or_raise (find (λ j. j.id == i) jobs) (value_error "job not found")

unfoldable pub require_campaign : Uuid → Action Campaign
require_campaign i = do
  campaigns ← gets (λ s. s.campaigns)
  or_raise (find (λ c. c.id == i) campaigns) (value_error "campaign not found")
