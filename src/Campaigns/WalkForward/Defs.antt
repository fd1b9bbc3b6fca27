-- ===== src/Campaigns/WalkForward/Defs.antt =====
-- `build_walk_forward_windows` (app/campaigns/walk_forward.py). The four dates of a window are kept
-- as dates: the source stores their ISO texts.
use mercury_trading.Base.{
  ℕ, zero, suc, ◌+◌, ◌-◌, ◌*◌, ◌/◌, max, ◌&&◌, List, [], ◌∷◌, ltb, leb, if◌then◌else◌,
}
use mercury_trading.Base.Date.{Date}

pub record Window : Type 0 where
  pub train_start : Date
  pub train_end : Date
  pub test_start : Date
  pub test_end : Date

-- The window of one index.
unfoldable pub window_at : Date → ℕ → ℕ → ℕ → Window
window_at start_date step train_span index =
    let train_start = start_date + index * step in
    let train_end = train_start + train_span in
    let test_end = train_end + step in
    record {
      train_start = train_start;
      train_end = train_end;
      test_start = train_end;
      test_end = test_end;
    }

-- The loop from `index` on, with the rounds left; windows that run past the end are skipped.
unfoldable pub windows_from : Date → Date → ℕ → ℕ → ℕ → ℕ → List Window
unfolding window_at
windows_from start_date end_date step train_span index zero = []
windows_from start_date end_date step train_span index (suc left) =
    let w = window_at start_date step train_span index in
    let rest = windows_from start_date end_date step train_span (suc index) left in
    if ltb w.train_start w.train_end && ltb w.train_end w.test_end && leb w.test_end end_date
    then w ∷ rest
    else rest

unfoldable pub step_of : ℕ → ℕ → ℕ → ℕ
step_of total_days windows min_test_days = max min_test_days (total_days / (windows + 1))

unfoldable pub build_walk_forward_windows : Date → Date → ℕ → ℕ → ℕ → List Window
unfolding step_of
build_walk_forward_windows start_date end_date windows min_train_days min_test_days =
    let total_days = end_date - start_date in
    let step = step_of total_days windows min_test_days in
    if ltb total_days (min_train_days + min_test_days)
    then []
    else windows_from start_date end_date step (max min_train_days step) 0 windows
