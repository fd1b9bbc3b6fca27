-- ===== src/Campaigns/Service/Stress.antt =====
-- A stress test that raises (app/campaigns/service.py, `_run_campaign_experiment`).
use mercury_trading.Base.{
  ◌≡◌, refl, true, false, none, some, List, [], ◌∷◌, ◌==◌, find, arith, String, ok, err, Bool-cases,
  inl, inr,
}
use mercury_trading.Campaigns.Splits.Defs.{Period}
use mercury_trading.Campaigns.WalkForward.Defs.{Window}
use mercury_trading.Campaigns.WalkForward.Leakage.{campaign_windows}
use mercury_trading.Campaigns.Service.Model.{
  Uuid, Exc, Job, Campaign, Experiment, Evaluation, planned, Store,
}
use mercury_trading.Campaigns.Service.Action.{
  ◌>>=◌, update_rows, update_experiment, update_job, require_campaign,
}
use mercury_trading.Campaigns.Service.Experiments.{
  Research, run_window, run_windows, complete_row, stress_test, evaluate_experiment,
  run_campaign_experiment,
}

find_complete :
    (i : Uuid) (f : Experiment → Experiment) (es : List Experiment) (e : Experiment)
    → ((x : Experiment) → (f x).id ≡ x.id)
    → find (λ x. x.id == i) es ≡ some e
    → find (λ x. x.id == i) (update_rows (λ x. x.id == e.id) f es) ≡ some (f e)
unfolding update_rows
find_complete i f [] e keep_id h = absurd (ground arith)
find_complete i f (x ∷ es) e keep_id h = elim (Bool-cases (x.id == i)) [
  | inl at ↦ ground (arith, keep_id x)
  | inr off ↦ ground (arith, keep_id x, find_complete i f es e keep_id)
]

module _ (research : Research) (c : Campaign) (e : Experiment) where
  -- Every backtest of the experiment succeeds.
  abbrev pub Backtests : Type 0
  Backtests = (p : Period) → (u : Uuid) × (research.run_backtest_on c e p ≡ ok u)

  run_windows_ok :
      (ws : List Window) (s : Store)
      → Backtests
      → (rows : List (Uuid × Uuid)) × (run_windows research c e ws s ≡ (ok rows, s))
  unfolding run_windows run_window ◌>>=◌
  run_windows_ok [] s good = ([], refl)
  run_windows_ok (w ∷ ws) s good =
      let (train, ran) = good (record { start = w.train_start; end = w.train_end }) in
      let (test, tested) = good (record { start = w.test_start; end = w.test_end }) in
      let (rows, others) = run_windows_ok ws s good in
      ((train, test) ∷ rows, rw (ran, tested, others))

  -- The evaluation raises after the experiment was written as completed.
  evaluate_raises :
      (job : Job) (s : Store) (exc : Exc)
      → Backtests
      → c.constraints.require_stress_testing ≡ true
      → ((u : Uuid) → research.stress_flags c u ≡ err exc)
      → (v : Evaluation) × (flags : List String) × (evaluate_experiment research c e job s ≡ (
        err exc,
        update_experiment e.id (complete_row research v flags) (
            update_job job.id
              (λ j. record j { experiment_id = some v.validation_experiment_id })
              s),
      ))
  unfolding evaluate_experiment stress_test ◌>>=◌
  evaluate_raises job s exc good asked fails =
      let (train, ran) = good c.split_definition.train in
      let (validation, checked) = good c.split_definition.validation in
      let windows = campaign_windows c.start_date c.split_definition e.long_window in
      let (rows, walked) = run_windows_ok windows s good in
      let v : Evaluation = record {
        train_experiment_id = train;
        validation_experiment_id = validation;
        walk_forward_windows = rows;
        stress_tested = false;
        test_experiment_id = none;
      } in
      (
        v,
        research.detect_overfitting c train validation,
        simp (ran, checked, walked, asked, fails validation),
      )

  -- Where the campaign and the planned experiment of a job are stored, every backtest of the
  -- experiment succeeds and a stress test that the campaign asks for raises, running the job
  -- raises as well, and running it again, whatever the other parts of the program answer, returns
  -- at once without a change.
  pub stress_failure_completes :
      (other : Research) (job : Job) (s : Store) (exc : Exc) {i : Uuid}
      → find (λ x. x.id == job.campaign_id) s.campaigns ≡ some c
      → job.campaign_experiment_id ≡ some i
      → find (λ x. x.id == i) s.experiments ≡ some e
      → e.status ≡ planned
      → Backtests
      → c.constraints.require_stress_testing ≡ true
      → ((u : Uuid) → research.stress_flags c u ≡ err exc)
      → let (r, t) = run_campaign_experiment research job s in
        (r ≡ err exc) × (run_campaign_experiment other job t ≡ (ok tt, t))
  unfolding run_campaign_experiment require_campaign ◌>>=◌ complete_row
  stress_failure_completes other job s exc {i} found at here_now fresh good asked fails =
      let (v, flags, raised) = evaluate_raises job s exc good asked fails in
      let f = complete_row research v flags in
      let t =
        update_experiment e.id f (
          update_job job.id (λ j. record j { experiment_id = some v.validation_experiment_id })
            s) in
      let first : run_campaign_experiment research job s ≡ (err exc, t) =
        simp (found, at, here_now, fresh, raised) in
      let again : run_campaign_experiment other job t ≡ (ok tt, t) =
        simp (found, at, find_complete i f s.experiments e (λ x. refl) here_now) in
      rw first (refl, again)
