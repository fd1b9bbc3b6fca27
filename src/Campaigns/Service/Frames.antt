-- ===== src/Campaigns/Service/Frames.antt =====
-- The job rows under everything that a job's work does (app/campaigns/service.py): it writes at most
-- their `experiment_id`. One rule for each way to build an action.
use mercury_trading.Base.{
  ◌≡◌, refl, Bool, true, false, Option, List, if◌then◌else◌, Result, ok, err,
}
use mercury_trading.Campaigns.Service.Model.{Uuid, Job, Campaign, Experiment, Decision, Store, Exc}
use mercury_trading.Campaigns.Service.Action.{
  Action, pure, raise, gets, lift, or_raise, modify, raise_when, ◌>>=◌, continue, update_campaign,
  update_experiment, record_decision, require_campaign, require_job,
}
use mercury_trading.Campaigns.Service.Rows.{Tags, Tags-refl, Tags-trans}

pub record TagsJobs {ℓ} {A : Type ℓ} (m : Action A) : Type 0 where
  pub on : (s : Store) → Tags s.jobs (m s).1.jobs

module _ {ℓ} {A : Type ℓ} where
  pub TagsJobs-pure : (a : A) → TagsJobs (pure a)
  unfolding ◌>>=◌
  TagsJobs-pure a = record { on = λ s. Tags-refl _ }

  pub TagsJobs-raise : (e : Exc) → TagsJobs (raise {A = A} e)
  unfolding ◌>>=◌
  TagsJobs-raise e = record { on = λ s. Tags-refl _ }

  pub TagsJobs-gets : (f : Store → A) → TagsJobs (gets f)
  unfolding ◌>>=◌
  TagsJobs-gets f = record { on = λ s. Tags-refl _ }

  pub TagsJobs-lift : (r : Result Exc A) → TagsJobs (lift r)
  unfolding ◌>>=◌
  TagsJobs-lift r = record { on = λ s. Tags-refl _ }

  pub TagsJobs-or_raise : (o : Option A) (e : Exc) → TagsJobs (or_raise o e)
  unfolding ◌>>=◌
  TagsJobs-or_raise o e = record { on = λ s. Tags-refl _ }

  pub TagsJobs-if :
      (b : Bool) (m n : Action A) → TagsJobs m → TagsJobs n → TagsJobs (if b then m else n)
  TagsJobs-if true m n km kn = km
  TagsJobs-if false m n km kn = kn

pub TagsJobs-raise_when : (b : Bool) (e : Exc) → TagsJobs (raise_when b e)
unfolding ◌>>=◌
TagsJobs-raise_when b e = record { on = λ s. Tags-refl _ }

-- A write that leaves the job table alone.
pub TagsJobs-modify :
    (f : Store → Store) → ((s : Store) → (f s).jobs ≡ s.jobs) → TagsJobs (modify f)
unfolding ◌>>=◌
TagsJobs-modify f h = record { on = λ s. rw (h s) (Tags-refl s.jobs) }

-- A write to the job table.
pub TagsJobs-write :
    (f : Store → Store) → ((s : Store) → Tags s.jobs (f s).jobs) → TagsJobs (modify f)
unfolding ◌>>=◌
TagsJobs-write f h = record { on = h }

module _ {ℓ κ} {A : Type ℓ} {B : Type κ} where
  continue-Tags :
      (js : List Job) (r : Result Exc A) (s : Store) (f : A → Action B)
      → Tags js s.jobs
      → ((a : A) → TagsJobs (f a))
      → Tags js (continue r f s).1.jobs
  continue-Tags js (ok a) s f h hf = Tags-trans _ _ _ h ((hf a).on s)
  continue-Tags js (err e) s f h hf = h

  pub TagsJobs-bind :
      (m : Action A) (f : A → Action B)
      → TagsJobs m
      → ((a : A) → TagsJobs (f a))
      → TagsJobs (m >>= f)
  unfolding ◌>>=◌
  TagsJobs-bind m f km kf = record {
    on = λ s. let (r, s') = m s in continue-Tags s.jobs r s' f (km.on s) kf;
  }

pub ruleset tag_rules = (
  TagsJobs-pure, TagsJobs-raise, TagsJobs-gets, TagsJobs-lift, TagsJobs-or_raise,
  TagsJobs-raise_when, TagsJobs-if, TagsJobs-bind,
)

pub TagsJobs-update_campaign :
    (i : Uuid) (f : Campaign → Campaign) → TagsJobs (modify (update_campaign i f))
TagsJobs-update_campaign i f = TagsJobs-modify _ (λ s. refl)

pub TagsJobs-update_experiment :
    (i : Uuid) (f : Experiment → Experiment) → TagsJobs (modify (update_experiment i f))
TagsJobs-update_experiment i f = TagsJobs-modify _ (λ s. refl)

pub TagsJobs-record_decision : (d : Decision) → TagsJobs (record_decision d)
TagsJobs-record_decision d = TagsJobs-modify _ (λ s. refl)

pub TagsJobs-require_campaign : (i : Uuid) → TagsJobs (require_campaign i)
unfolding require_campaign
TagsJobs-require_campaign i = search tag_rules depth 8

pub TagsJobs-require_job : (i : Uuid) → TagsJobs (require_job i)
unfolding require_job
TagsJobs-require_job i = search tag_rules depth 8

pub ruleset write_rules = (
  tag_rules, TagsJobs-update_campaign, TagsJobs-update_experiment, TagsJobs-record_decision,
  TagsJobs-require_campaign, TagsJobs-require_job,
)
