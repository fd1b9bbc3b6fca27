-- ===== src/PaperTrading/Clock.antt =====
-- The market hours of app/paper_trading/clock.py, with the default times. An instant is a number of
-- microseconds since 1970-01-01T00:00 UTC, which was a Thursday.
use mercury_trading.Base.{ℕ, ◌+◌, ◌/◌, ◌%◌, Bool, true, false, ltb, leb, if◌then◌else◌}

pub data MarketSessionState : Type 0 where
  pre_market open_market closed : MarketSessionState

abbrev microseconds_per_day : ℕ
microseconds_per_day = 86_400_000_000

-- `timestamp.weekday()`: 0 on a Monday.
unfoldable pub weekday : ℕ → ℕ
weekday timestamp = (timestamp / microseconds_per_day + 3) % 7

-- 13:30 and 20:00 in microseconds
abbrev open_time_utc : ℕ
open_time_utc = 48_600_000_000

abbrev close_time_utc : ℕ
close_time_utc = 72_000_000_000

unfoldable pub state_at : ℕ → MarketSessionState
unfolding weekday
state_at timestamp =
    let current_time = timestamp % microseconds_per_day in
    if leb 5 (weekday timestamp)
    then closed
    else if ltb current_time open_time_utc
    then pre_market
    else if leb current_time close_time_utc
    then open_market
    else closed

abbrev pub is_open_market : MarketSessionState → Bool
is_open_market open_market = true
is_open_market _ = false

unfoldable pub can_submit_orders : ℕ → Bool
unfolding state_at
can_submit_orders timestamp = is_open_market (state_at timestamp)
