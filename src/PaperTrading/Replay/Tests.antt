-- ===== src/PaperTrading/Replay/Tests.antt =====
-- Runs of the replay (app/paper_trading/service.py).
use mercury_trading.Base.{ℕ, ◌≡◌, refl, List, [], ◌∷◌, arith, ok}
use mercury_trading.PaperTrading.Events.{EventType, MarketEvent, OrderEvent}
use mercury_trading.PaperTrading.Execution.Defs.{available, market_state_from_event}
use mercury_trading.PaperTrading.Tests.{
  cents, cents-IsOrdered, same_text, account, engine, sale, config, broker, bar,
}
use mercury_trading.PaperTrading.Replay.Defs.{Replay}
use mercury_trading.PaperTrading.Replay.Stream.{
  MarketBar, bars_at, stream_events, IsStream, stream_events-IsStream,
}
use mercury_trading.PaperTrading.Replay.Loop.{route, replay}
use mercury_trading.PaperTrading.Replay.Sound.{IsSound, IsRun}
use mercury_trading.PaperTrading.Replay.Run.{replay-IsRun}
use mercury_trading.PaperTrading.Replay.Dropped.{route_drops}

abbrev waiting_sale : OrderEvent ℕ
waiting_sale = sale

-- A session after one recorded event, with a sale that waits.
abbrev session : Replay ℕ
session = record {
  sequence = 1;
  portfolio = account;
  risk = engine;
  strategy = record {
    fast_window = 1;
    slow_window = 2;
    target_exposure_pct = 1;
    history = 90 ∷ 100 ∷ [];
  };
  pending_orders = (1, waiting_sale) ∷ [];
  trace = (1, EventType.session) ∷ [];
  orders = [];
  fills = [];
  counters = record {
    market_events = 0;
    signal_events = 0;
    rejected_orders = 0;
    filled_orders = 0;
    partial_fills = 0;
    requested_quantity = 0;
    filled_quantity = 0;
    spread_cost = 0;
    impact_cost = 0;
  };
  next_id = 7;
}

session-IsSound : IsSound same_text 0 session
session-IsSound = record { numbered = (refl, refl); pending = ((omega arith, refl), tt) }

abbrev first_bar : MarketEvent ℕ
first_bar = record bar { sequence = 1 }

abbrev second_bar : MarketEvent ℕ
second_bar = record bar { sequence = 2; volume = 40 }

replay-IsRun_example :
    IsRun same_text 2 (replay same_text broker (first_bar ∷ second_bar ∷ []) session)
replay-IsRun_example =
    replay-IsRun same_text cents-IsOrdered broker (first_bar ∷ second_bar ∷ []) 0 session refl
      session-IsSound

abbrev dry_bar : MarketEvent ℕ
dry_bar = record bar { volume = 0 }

dry_bar-available : (available (market_state_from_event dry_bar config) config) ≡ 0
unfolding available market_state_from_event
dry_bar-available = refl

route_drops_example :
    (t : Replay ℕ) × (route same_text broker dry_bar sale session ≡ ok t)
    × (t.pending_orders ≡ session.pending_orders)
    × (t.fills ≡ [])
    × (t.portfolio ≡ account)
route_drops_example =
    route_drops cents-IsOrdered same_text broker dry_bar sale session refl refl refl
      (rw dry_bar-available refl)

abbrev late_bar : MarketBar ℕ
late_bar = record {
  timestamp = 9;
  symbol = "ACME";
  open_price = 100;
  high = 110;
  low = 90;
  close = 105;
  volume = 3;
}

-- Two bars in the wrong order.
abbrev two_bars : List (MarketBar ℕ)
two_bars = late_bar ∷ record late_bar { timestamp = 4 } ∷ []

stream_events-IsStream_example :
    (es : List (MarketEvent ℕ)) × (stream_events same_text two_bars ≡ ok es)
    × ((sorted : List (MarketBar ℕ)) × ((t : ℕ)
          → bars_at same_text t sorted ≡ bars_at same_text t two_bars)
        × IsStream same_text 1 0 sorted es)
stream_events-IsStream_example = stream_events-IsStream same_text two_bars
