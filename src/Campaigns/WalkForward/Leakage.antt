-- ===== src/Campaigns/WalkForward/Leakage.antt =====
-- The walk-forward evaluation of a campaign and its locked test period: `_run_walk_forward_evaluations`
-- (app/campaigns/service.py) builds the windows up to the end of the validation period.
use mercury_trading.Base.{ℕ, ◌+◌, ◌≤◌, ◌≡◌, Option, List, arith, All, All-map_of, ok, String}
use mercury_trading.Base.Date.{Date, IsoFormat}
use mercury_trading.Campaigns.Splits.Defs.{TemporalSplit, Dict, build_temporal_split}
use mercury_trading.Campaigns.Splits.Order.{build-IsOrdered}
use mercury_trading.Campaigns.WalkForward.Defs.{Window, build_walk_forward_windows}
use mercury_trading.Campaigns.WalkForward.Windows.{IsWindow, build-IsWindow}

-- The windows of `_run_walk_forward_evaluations`, for a strategy with this long window.
unfoldable pub campaign_windows : Date → TemporalSplit → ℕ → List Window
campaign_windows start_date split long_window =
    let min_window_days = long_window + 1 in
    build_walk_forward_windows start_date split.validation.end 3 min_window_days min_window_days

-- For a split that was built, no walk-forward window of the campaign reaches past the start of the
-- locked test period, and each trains on more days than the strategy's long window.
pub campaign_windows_locked :
    (iso : IsoFormat) (a b : Date) (definition : Option (Dict (Dict String))) (long_window : ℕ)
    {s : TemporalSplit}
    → build_temporal_split iso a b definition ≡ ok s
    → All
        (λ w. (w.test_end ≤ s.test.start) × (w.train_start + (long_window + 1) ≤ w.train_end))
        (campaign_windows a s long_window)
unfolding campaign_windows
campaign_windows_locked iso a b definition k {s} h =
    let ordered = build-IsOrdered iso a b definition h in
    All-map_of _ _ (λ w (i : IsWindow a s.validation.end (k + 1) (k + 1) w). omega arith) _
      (build-IsWindow a s.validation.end 3 (k + 1) (k + 1))
