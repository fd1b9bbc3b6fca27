-- ===== src/Campaigns/Service/Cancellation.antt =====
-- What becomes of a cancelled campaign (app/campaigns/service.py).
use mercury_trading.Base.{
  ◌≡◌, refl, true, false, ◌&&◌, some, List, [], ◌∷◌, arith, All, find, any, keep, ◌==◌, Bool-cases,
  inl, inr,
}
use mercury_trading.Campaigns.Service.Model.{Uuid, Instant, Job, Campaign, CampaignStatus, Store}
use mercury_trading.Campaigns.Service.Action.{◌>>=◌, update_rows, require_campaign}
use mercury_trading.Campaigns.Service.Jobs.{is_running, is_eligible}
use mercury_trading.Campaigns.Service.Experiments.{Research}
use mercury_trading.Campaigns.Service.Lifecycle.{
  of_campaign, list_jobs, cancel_waiting, cancel_campaign, refresh_campaign_state, is_active,
}

-- After the cancellation of a campaign none of its jobs can be claimed, at any time.
cancel_waiting-none :
    (now later : Instant) (i : Uuid) (js : List Job)
    → All (λ j. (of_campaign i j && is_eligible later j) ≡ false) (cancel_waiting now i js)
unfolding cancel_waiting update_rows is_eligible
cancel_waiting-none now later i [] = tt
cancel_waiting-none now later i (j ∷ js) = (ground arith, cancel_waiting-none now later i js)

find-update_rows :
    (i : Uuid) (f : Campaign → Campaign) (cs : List Campaign) (c : Campaign)
    → ((x : Campaign) → (f x).id ≡ x.id)
    → find (λ x. x.id == i) cs ≡ some c
    → find (λ x. x.id == i) (update_rows (λ x. x.id == c.id) f cs) ≡ some (f c)
unfolding update_rows
find-update_rows i f [] c keep_id e = absurd (ground arith)
find-update_rows i f (x ∷ cs) c keep_id e = elim (Bool-cases (x.id == i)) [
  | inl at ↦ ground (arith, keep_id x)
  | inr off ↦ ground (arith, keep_id x, find-update_rows i f cs c keep_id)
]

-- Cancelling a campaign that is stored marks it as cancelled, and leaves none of its jobs eligible
-- for a claim at any time.
pub cancel_campaign_lem :
    (now later : Instant) (i : Uuid) (s : Store) {c : Campaign}
    → find (λ x. x.id == i) s.campaigns ≡ some c
    → let t = (cancel_campaign now i s).1 in
      (find (λ x. x.id == i) t.campaigns ≡ some (record c { status = CampaignStatus.cancelled }))
      × All (λ j. (of_campaign c.id j && is_eligible later j) ≡ false) t.jobs
unfolding cancel_campaign require_campaign ◌>>=◌
cancel_campaign_lem now later i s {c} e = rw e (
  find-update_rows i (λ x. record x { status = CampaignStatus.cancelled }) s.campaigns c (λ x. refl)
      e,
  cancel_waiting-none now later c.id s.jobs,
)

module _ (research : Research) where
  -- Refreshing the state of a campaign that has an active job marks it as running, also when the
  -- campaign had been cancelled.
  pub refresh_reopens :
      (i : Uuid) (s : Store) {c : Campaign}
      → find (λ x. x.id == i) s.campaigns ≡ some c
      → any (λ j. is_active j.status) (list_jobs c.id s) ≡ true
      → find (λ x. x.id == i) (refresh_campaign_state research i s).1.campaigns
        ≡ some (record c { status = CampaignStatus.running })
  unfolding refresh_campaign_state require_campaign ◌>>=◌
  refresh_reopens i s {c} e active =
      rw (e, active)
        (find-update_rows i (λ x. record x { status = CampaignStatus.running }) s.campaigns c
          (λ x. refl) e)

  running_survives :
      (now : Instant) (i : Uuid) (js : List Job)
      → any (λ j. is_running j.status) (keep (of_campaign i) js) ≡ true
      → any (λ j. is_active j.status) (keep (of_campaign i) (cancel_waiting now i js)) ≡ true
  unfolding cancel_waiting update_rows
  running_survives now i [] h = h
  running_survives now i (j ∷ js) h = ground (arith, running_survives now i js)

  cancelled-active :
      (now : Instant) (i : Uuid) (s : Store) {c : Campaign}
      → find (λ x. x.id == i) s.campaigns ≡ some c
      → any (λ j. is_running j.status) (list_jobs c.id s) ≡ true
      → any (λ j. is_active j.status) (list_jobs c.id (cancel_campaign now i s).1) ≡ true
  unfolding cancel_campaign require_campaign ◌>>=◌
  cancelled-active now i s {c} e running = rw e (running_survives now c.id s.jobs running)

  -- A stored campaign that is cancelled while one of its jobs runs is marked as running by the
  -- next refresh of its state.
  pub cancelled_campaign_reopens :
      (now : Instant) (i : Uuid) (s : Store) {c : Campaign}
      → find (λ x. x.id == i) s.campaigns ≡ some c
      → any (λ j. is_running j.status) (list_jobs c.id s) ≡ true
      → find
          (λ x. x.id == i)
          (refresh_campaign_state research i (cancel_campaign now i s).1).1.campaigns
        ≡ some (record c { status = CampaignStatus.running })
  cancelled_campaign_reopens now i s {c} e running =
      let t = (cancel_campaign now i s).1 in
      refresh_reopens i t (cancel_campaign_lem now now i s e).0 (cancelled-active now i s e running)
