-- ===== src/Campaigns/WalkForward/Windows.antt =====
-- What a walk-forward window guarantees (app/campaigns/walk_forward.py).
use mercury_trading.Base.{
  ℕ, zero, suc, ◌+◌, ◌-◌, ◌*◌, ◌≤◌, ◌<◌, ◌≡◌, max, List, [], ◌∷◌, arith, All, length,
}
use mercury_trading.Base.Date.{Date}
use mercury_trading.Campaigns.WalkForward.Defs.{
  Window, windows_from, step_of, build_walk_forward_windows,
}

-- A window inside a campaign: training comes first and is followed at once by the test, both as
-- long as asked.
pub record IsWindow (start_date end_date : Date) (min_train min_test : ℕ) (w : Window)
    : Type 0 where
  pub after_start : start_date ≤ w.train_start
  pub train_long : w.train_start + min_train ≤ w.train_end
  pub train_nonempty : w.train_start < w.train_end
  pub adjacent : w.test_start ≡ w.train_end
  pub test_long : w.test_start + min_test ≤ w.test_end
  pub test_nonempty : w.test_start < w.test_end
  pub before_end : w.test_end ≤ end_date

windows_from-All :
    (a b : Date) (step span index left m n : ℕ)
    → m ≤ span
    → n ≤ step
    → All (IsWindow a b m n) (windows_from a b step span index left)
unfolding windows_from
windows_from-All a b step span index zero m n hm hn = tt
windows_from-All a b step span index (suc left) m n hm hn =
    ground (arith, windows_from-All a b step span (suc index) left m n hm hn)

-- Every walk-forward window lies inside the campaign, is followed at once by its test, and has
-- nonempty periods of at least the lengths asked for.
pub build-IsWindow :
    (a b : Date) (windows min_train min_test : ℕ)
    → All
        (IsWindow a b min_train min_test)
        (build_walk_forward_windows a b windows min_train min_test)
unfolding build_walk_forward_windows
build-IsWindow a b windows m n =
    let step = step_of (b - a) windows n in
    ground (arith, windows_from-All a b step (max m step) 0 windows m n)

-- The windows of a list start from `lo` on, and each test ends before the next one starts.
abbrev pub Disjoint : Date → List Window → Type 0
Disjoint lo [] = Unit
Disjoint lo (w ∷ ws) = (lo ≤ w.test_start) × Disjoint w.test_end ws

Disjoint-mono : (lo hi : Date) (ws : List Window) → lo ≤ hi → Disjoint hi ws → Disjoint lo ws
Disjoint-mono lo hi [] h d = tt
Disjoint-mono lo hi (w ∷ ws) h d = (omega arith, d.1)

windows_from-Disjoint :
    (a b : Date) (step span index left : ℕ)
    → Disjoint (a + index * step + span) (windows_from a b step span index left)
unfolding windows_from
windows_from-Disjoint a b step span index zero = tt
windows_from-Disjoint a b step span index (suc left) =
    let rest = windows_from-Disjoint a b step span (suc index) left in
    let lo = a + index * step + span in
    let hi = a + suc index * step + span in
    let ws = windows_from a b step span (suc index) left in
    ground (arith, rest, Disjoint-mono lo hi ws)

-- The test periods of the walk-forward windows do not overlap: each starts no earlier than the one
-- before ends.
pub build-Disjoint :
    (a b : Date) (windows min_train min_test : ℕ)
    → Disjoint a (build_walk_forward_windows a b windows min_train min_test)
unfolding build_walk_forward_windows
build-Disjoint a b windows m n =
    let step = step_of (b - a) windows n in
    let span = max m step in
    let ws = windows_from a b step span 0 windows in
    ground (
      arith,
      windows_from-Disjoint a b step span 0 windows,
      Disjoint-mono a (a + 0 * step + span) ws,
    )

length-windows_from :
    (a b : Date) (step span index left : ℕ) → length (windows_from a b step span index left) ≤ left
unfolding windows_from
length-windows_from a b step span index zero = omega arith
length-windows_from a b step span index (suc left) =
    ground (arith, length-windows_from a b step span (suc index) left)
