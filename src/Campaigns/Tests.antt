-- ===== src/Campaigns/Tests.antt =====
-- Runs of the splits and the windows (app/campaigns/splits.py, app/campaigns/walk_forward.py).
use mercury_trading.Base.{
  ℕ, zero, suc, ◌+◌, ◌≤◌, ◌≡◌, refl, ap, ◌∙◌, none, some, String, ok, List, length, All,
}
use mercury_trading.Base.Date.{IsoFormat, IsInverse}
use mercury_trading.Campaigns.Splits.Defs.{
  TemporalSplit, default_split, as_dict, validate_temporal_split, build_temporal_split,
  choose_split,
}
use mercury_trading.Campaigns.Splits.Order.{IsOrdered, build-IsOrdered, build-as_dict}
use mercury_trading.Campaigns.WalkForward.Defs.{
  Window, window_at, windows_from, step_of, build_walk_forward_windows,
}
use mercury_trading.Campaigns.WalkForward.Windows.{
  IsWindow, build-IsWindow, Disjoint, build-Disjoint,
}
use mercury_trading.Campaigns.WalkForward.Leakage.{campaign_windows, campaign_windows_locked}
use text.Mathlib.TextLemmas.{length-cons}
use Prim.Native.String.{count, ◌∷◌ as char_cons}

-- A text of a date, and a reader of it: one mark for each day.
marks : ℕ → String
marks zero = ""
marks (suc d) = char_cons "d" (marks d)

count-marks : (d : ℕ) → count (marks d) ≡ d
unfolding marks
count-marks zero = refl
count-marks (suc d) = length-cons _ (marks d) ∙ ap suc (count-marks d)

abbrev marks_iso : IsoFormat
marks_iso = record { isoformat = marks; fromisoformat = λ s. some (count s) }

marks_iso-IsInverse : IsInverse marks_iso
marks_iso-IsInverse d = ap some (count-marks d)

-- Ten days from day 5.
abbrev ten_days : TemporalSplit
ten_days = record {
  train = record { start = 5; end = 11 };
  validation = record { start = 11; end = 13 };
  test = record { start = 13; end = 15 };
}

build_ten_days : build_temporal_split marks_iso 5 15 none ≡ ok ten_days
unfolding build_temporal_split choose_split default_split validate_temporal_split
build_ten_days = refl

build-IsOrdered_example : IsOrdered 5 15 ten_days
build-IsOrdered_example = build-IsOrdered marks_iso 5 15 none build_ten_days

build-as_dict_example :
    build_temporal_split marks_iso 5 15 (some (as_dict marks_iso ten_days)) ≡ ok ten_days
build-as_dict_example = build-as_dict marks_iso marks_iso-IsInverse 5 15 none build_ten_days

-- Four windows over a hundred days, of which three fit.
abbrev four_windows : List Window
four_windows = build_walk_forward_windows 1000 1100 4 30 10

four_windows-length : length four_windows ≡ 3
unfolding build_walk_forward_windows windows_from window_at step_of
four_windows-length = refl

build-IsWindow_example : All (IsWindow 1000 1100 30 10) four_windows
build-IsWindow_example = build-IsWindow 1000 1100 4 30 10

build-Disjoint_example : Disjoint 1000 four_windows
build-Disjoint_example = build-Disjoint 1000 1100 4 30 10

campaign_windows_locked_example :
    All (λ w. (w.test_end ≤ 13) × (w.train_start + 3 ≤ w.train_end)) (campaign_windows 5 ten_days 2)
campaign_windows_locked_example = campaign_windows_locked marks_iso 5 15 none 2 build_ten_days
