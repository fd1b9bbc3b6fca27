-- ===== src/Campaigns/Service/Creation.antt =====
-- Creating jobs keeps the job table valid (app/campaigns/service.py).
use mercury_trading.Base.{
  ℕ, ◌≡◌, ◌<◌, ◌≤◌, refl, Bool, true, false, Option, List, [], ◌∷◌, ◌++◌, arith, All, any,
  All-append, Bool-cases, inl, inr, if◌then◌else◌, Result, ok, err,
}
use mercury_trading.Campaigns.Service.Model.{
  Uuid, Instant, Job, Campaign, Experiment, Exc, Store, Decision,
}
use mercury_trading.Campaigns.Service.Action.{
  Action, ◌>>=◌, update_campaign, record_decision, require_campaign, continue, pure, gets, modify,
  raise_when,
}
use mercury_trading.Campaigns.Service.Rows.{Evolves-refl, Evolves-of_Tags}
use mercury_trading.Campaigns.Service.Frames.{
  TagsJobs, TagsJobs-pure, TagsJobs-gets, TagsJobs-raise_when, TagsJobs-update_campaign,
  TagsJobs-record_decision, TagsJobs-require_campaign,
}
use mercury_trading.Campaigns.Service.Execution.{DistinctIds}
use mercury_trading.Campaigns.Service.Experiments.{Research}
use mercury_trading.Campaigns.Service.Planning.{
  fresh_id, has_key, new_job, create_job, create_jobs, run_campaign,
}
use mercury_trading.Campaigns.Service.Lifecycle.{
  refresh_campaign_state, recover_campaign, recover_all, recover_interrupted_campaigns,
}
use mercury_trading.Campaigns.Service.Work.{refresh-TagsJobs}
use mercury_trading.Campaigns.Service.Validity.{
  IsValid, IsBounded, DistinctKeys, Extends, Extends-of_Evolves, Extends-trans, Extends-append,
  IsValid-Evolves,
}

-- An action that keeps the job table valid and lets it only grow.
pub record KeepsValid {ℓ} {A : Type ℓ} (m : Action A) : Type 0 where
  pub valid : (s : Store) → IsValid s.jobs → IsValid (m s).1.jobs
  pub extends : (s : Store) → Extends s.jobs (m s).1.jobs

module _ {ℓ} {A : Type ℓ} where
  KeepsValid-of_tags : (m : Action A) → TagsJobs m → KeepsValid m
  KeepsValid-of_tags m t = record {
    valid = λ s v. IsValid-Evolves _ _ (Evolves-of_Tags _ _ (t.on s)) v;
    extends = λ s. Extends-of_Evolves _ _ (Evolves-of_Tags _ _ (t.on s));
  }

  KeepsValid-pure : (a : A) → KeepsValid (pure a)
  KeepsValid-pure a = KeepsValid-of_tags _ (TagsJobs-pure a)

  KeepsValid-gets : (f : Store → A) → KeepsValid (gets f)
  KeepsValid-gets f = KeepsValid-of_tags _ (TagsJobs-gets f)

  KeepsValid-if :
      (b : Bool) (m n : Action A) → KeepsValid m → KeepsValid n → KeepsValid (if b then m else n)
  KeepsValid-if true m n km kn = km
  KeepsValid-if false m n km kn = kn

KeepsValid-raise_when : (b : Bool) (e : Exc) → KeepsValid (raise_when b e)
KeepsValid-raise_when b e = KeepsValid-of_tags _ (TagsJobs-raise_when b e)

module _ {ℓ κ} {A : Type ℓ} {B : Type κ} where
  continue-IsValid :
      (r : Result Exc A) (s : Store) (f : A → Action B)
      → ((a : A) → KeepsValid (f a))
      → IsValid s.jobs
      → IsValid (continue r f s).1.jobs
  continue-IsValid (ok a) s f hf v = (hf a).valid s v
  continue-IsValid (err e) s f hf v = v

  continue-Extends :
      (js : List Job) (r : Result Exc A) (s : Store) (f : A → Action B)
      → ((a : A) → KeepsValid (f a))
      → Extends js s.jobs
      → Extends js (continue r f s).1.jobs
  continue-Extends js (ok a) s f hf e = Extends-trans _ _ _ e ((hf a).extends s)
  continue-Extends js (err x) s f hf e = e

  KeepsValid-bind :
      (m : Action A) (f : A → Action B)
      → KeepsValid m
      → ((a : A) → KeepsValid (f a))
      → KeepsValid (m >>= f)
  unfolding ◌>>=◌
  KeepsValid-bind m f km kf = record {
    valid = λ s v. let (r, s') = m s in continue-IsValid r s' f kf (km.valid s v);
    extends = λ s. let (r, s') = m s in continue-Extends s.jobs r s' f kf (km.extends s);
  }

KeepsValid-update_campaign :
    (i : Uuid) (f : Campaign → Campaign) → KeepsValid (modify (update_campaign i f))
KeepsValid-update_campaign i f = KeepsValid-of_tags _ (TagsJobs-update_campaign i f)

KeepsValid-record_decision : (d : Decision) → KeepsValid (record_decision d)
KeepsValid-record_decision d = KeepsValid-of_tags _ (TagsJobs-record_decision d)

KeepsValid-require_campaign : (i : Uuid) → KeepsValid (require_campaign i)
KeepsValid-require_campaign i = KeepsValid-of_tags _ (TagsJobs-require_campaign i)

ruleset valid_rules = (
  KeepsValid-pure, KeepsValid-gets, KeepsValid-if, KeepsValid-raise_when, KeepsValid-bind,
  KeepsValid-update_campaign, KeepsValid-record_decision, KeepsValid-require_campaign,
)

All-lt-fresh : (js : List Job) (n : ℕ) → fresh_id js ≤ n → All (λ k. k.id < n) js
unfolding fresh_id
All-lt-fresh [] n h = tt
All-lt-fresh (j ∷ js) n h = (omega arith, All-lt-fresh js n (omega arith))

DistinctIds-append :
    (js : List Job) (new : Job)
    → DistinctIds js
    → All (λ k. k.id < new.id) js
    → DistinctIds (js ++ (new ∷ []))
DistinctIds-append [] new d h = (tt, tt)
DistinctIds-append (j ∷ js) new (d, ds) (h, hs) =
    (All-append _ js (new ∷ []) d (ground arith, tt), DistinctIds-append js new ds hs)

no_key :
    (c key : Uuid) (js : List Job)
    → any (has_key c key) js ≡ false
    → All (λ k. has_key c key k ≡ false) js
no_key c key [] h = tt
no_key c key (j ∷ js) h = (ground arith, no_key c key js (ground arith))

DistinctKeys-append :
    (js : List Job) (new : Job)
    → DistinctKeys js
    → All (λ k. has_key new.campaign_id new.idempotency_key k ≡ false) js
    → DistinctKeys (js ++ (new ∷ []))
unfolding has_key
DistinctKeys-append [] new d h = (tt, tt)
DistinctKeys-append (j ∷ js) new (d, ds) (h, hs) =
    (All-append _ js (new ∷ []) d (ground arith, tt), DistinctKeys-append js new ds hs)

IsValid-new_job :
    (now : Instant) (c : Campaign) (i : Uuid) (js : List Job)
    → any (has_key c.id i) js ≡ false
    → IsValid js
    → IsValid (js ++ (new_job now c i (fresh_id js) ∷ []))
unfolding new_job
IsValid-new_job now c i js none_yet v = record {
  ids = DistinctIds-append js _ v.ids (All-lt-fresh js (fresh_id js) (omega arith));
  keys = DistinctKeys-append js _ v.keys (no_key c.id i js none_yet);
  bounded = All-append IsBounded js _ v.bounded (refl, tt);
}

create_job-KeepsValid : (now : Instant) (c : Campaign) (i : Uuid) → KeepsValid (create_job now c i)
unfolding create_job ◌>>=◌
create_job-KeepsValid now c i = record {
  valid = λ s v. elim (Bool-cases (any (has_key c.id i) s.jobs)) [
    | inl e ↦ rw e v
    | inr e ↦ rw e (IsValid-new_job now c i s.jobs e v)
  ];
  extends = λ s. elim (Bool-cases (any (has_key c.id i) s.jobs)) [
    | inl e ↦ rw e (Extends-of_Evolves _ _ (Evolves-refl s.jobs))
    | inr e ↦ rw e (Extends-append s.jobs _)
  ];
}

create_jobs-KeepsValid :
    (now : Instant) (c : Campaign) (es : List Experiment) → KeepsValid (create_jobs now c es)
unfolding create_jobs
create_jobs-KeepsValid now c [] = KeepsValid-pure []
create_jobs-KeepsValid now c (e ∷ es) =
    KeepsValid-bind _ _ (create_job-KeepsValid now c e.id)
      λ job. KeepsValid-bind _ _ (create_jobs-KeepsValid now c es) λ jobs. KeepsValid-pure _

pub run_campaign-KeepsValid :
    (now : Instant) (i : Uuid) (size : Option ℕ) → KeepsValid (run_campaign now i size)
unfolding run_campaign
run_campaign-KeepsValid now i size = search (valid_rules, create_jobs-KeepsValid) depth 14

module _ (research : Research) where
  refresh-KeepsValid : (i : Uuid) → KeepsValid (refresh_campaign_state research i)
  refresh-KeepsValid i = KeepsValid-of_tags _ (refresh-TagsJobs research i)

  recover_campaign-KeepsValid :
      (now : Instant) (c : Campaign) → KeepsValid (recover_campaign research now c)
  unfolding recover_campaign
  recover_campaign-KeepsValid now c =
      search (valid_rules, create_jobs-KeepsValid, refresh-KeepsValid) depth 14

  recover_all-KeepsValid :
      (now : Instant) (cs : List Campaign) → KeepsValid (recover_all research now cs)
  unfolding recover_all
  recover_all-KeepsValid now [] = KeepsValid-pure 0
  recover_all-KeepsValid now (c ∷ cs) =
      KeepsValid-bind _ _ (recover_campaign-KeepsValid now c)
        λ n. KeepsValid-bind _ _ (recover_all-KeepsValid now cs) λ m. KeepsValid-pure _

  pub recover_interrupted-KeepsValid :
      (now : Instant) → KeepsValid (recover_interrupted_campaigns research now)
  unfolding recover_interrupted_campaigns
  recover_interrupted-KeepsValid now = search (valid_rules, recover_all-KeepsValid) depth 9
