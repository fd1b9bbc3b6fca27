-- ===== src/PaperTrading/Live/Tests.antt =====
-- Runs of live sessions (app/paper_trading/live_service.py).
use mercury_trading.Base.{
  ℕ, ◌≡◌, refl, true, false, none, some, List, [], ◌∷◌, arith, Bool, ◌++◌, keep, str_eq,
}
use mercury_trading.Base.Int.{pos}
use mercury_trading.PaperTrading.Strategy.{Strategy}
use mercury_trading.PaperTrading.Tests.{cents, cents-IsOrdered, same_text, engine, broker}
use mercury_trading.PaperTrading.Live.Defs.{LiveMarketBar, LiveRequest, Runner, failed, new_runner}
use mercury_trading.PaperTrading.Live.Feed.{static_stream, static_stream-resumes}
use mercury_trading.PaperTrading.Live.Run.{bar_of, stop_event, FeedStream, run_live}
use mercury_trading.PaperTrading.Live.Stages.{IsSound}
use mercury_trading.PaperTrading.Live.Session.{run_live-IsSound}
use mercury_trading.PaperTrading.Live.Limit.{IsAtMost, run_live-IsAtMost}
use mercury_trading.PaperTrading.Live.Reconnect.{run_live-gives_up}

abbrev live_bar : LiveMarketBar ℕ
live_bar = record {
  symbol = "ACME";
  timestamp = 50_000_000_000;
  interval = "1m";
  open_price = 100;
  high = 110;
  low = 90;
  close = 105;
  volume = pos 3;
  source = "static";
}

abbrev later_bar : LiveMarketBar ℕ
later_bar = record live_bar { timestamp = 50_060_000_000; open_price = 120 }

-- A feed that breaks after a bar, repeats that bar and gives another one.
abbrev broken_feed : List (FeedStream ℕ)
broken_feed =
    record {
      stopped_before = false;
      items = bar_of live_bar ∷ [];
      failure = some "feed disconnected";
    }
    ∷ record {
      stopped_before = false;
      items = bar_of live_bar ∷ bar_of later_bar ∷ stop_event ∷ [];
      failure = none;
    }
    ∷ []

abbrev dead_feed : List (FeedStream ℕ)
dead_feed =
    record { stopped_before = false; items = []; failure = some "no route" }
    ∷ record { stopped_before = false; items = []; failure = some "no route" }
    ∷ []

abbrev request : LiveRequest
request = record { max_events = some 2; max_reconnect_attempts = 1; respect_market_hours = true }

abbrev averages : Strategy ℕ
averages = record {
  fast_window = 1;
  slow_window = 2;
  target_exposure_pct = 1;
  history = 90 ∷ 100 ∷ [];
}

abbrev start : Runner ℕ
start = new_runner same_text 1000 engine.config averages

run_live-IsSound_example :
    IsSound same_text true (run_live same_text broker request none broken_feed start).1
run_live-IsSound_example =
    run_live-IsSound same_text cents-IsOrdered broker request none broken_feed 1000 engine.config
      averages

run_live-gives_up_example :
    (run_live same_text broker request none dead_feed start).1.saved.feed_state ≡ failed
unfolding new_runner
run_live-gives_up_example =
    run_live-gives_up same_text broker request none dead_feed start refl (omega arith)
      ((refl, refl, ("no route", refl)), ((refl, refl, ("no route", refl)), tt))

run_live-IsAtMost_example : IsAtMost 2 (run_live same_text broker request none broken_feed start).1
run_live-IsAtMost_example =
    run_live-IsAtMost same_text broker request 2 refl none broken_feed 1000 engine.config averages
      (omega arith)

abbrev repeated_bars : List (LiveMarketBar ℕ)
repeated_bars = live_bar ∷ record live_bar { symbol = "OTHER" } ∷ later_bar ∷ []

abbrev of_acme : LiveMarketBar ℕ → Bool
of_acme bar = str_eq bar.symbol "ACME"

static_stream-resumes_example :
    (let s = static_stream (some 1) of_acme repeated_bars 0 false in
      s.bars ++ (static_stream (some 1) of_acme repeated_bars s.offset s.failed_once).bars)
    ≡ keep of_acme repeated_bars
static_stream-resumes_example = static_stream-resumes (some 1) of_acme repeated_bars
