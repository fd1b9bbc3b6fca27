-- ===== src/PaperTrading/Strategy.antt =====
-- `MovingAverageSignalStrategy` (app/paper_trading/strategy.py). The averages read the closes of the history
-- only, so the history is the list of closes.
use mercury_trading.Base.{
  ℕ, ◌-◌, ◌&&◌, List, [], ◌∷◌, ◌++◌, String, length, drop, ltb, ◌==◌, if◌then◌else◌,
}
use mercury_trading.PaperTrading.Number.{Number, nought}
use mercury_trading.PaperTrading.Events.{MarketEvent, SignalEvent, SignalDirection}
use mercury_trading.PaperTrading.Portfolio.Defs.{Portfolio, position_quantity, equity}

pub record Strategy (F : Type 0) : Type 0 where
  pub fast_window : ℕ
  pub slow_window : ℕ
  pub target_exposure_pct : F
  pub history : List F

module _ {F : Type 0} ⦃num : Number F⦄ (upper : String → String) where
  open num use {add, mul, div, round8, of_nat, epsilon, le, lt, eq}

  -- `xs[-n:]`, which is the whole list for 0.
  abbrev last_of : ℕ → List F → List F
  last_of n xs = if n == 0 then xs else drop (length xs - n) xs

  abbrev total_from : F → List F → F
  total_from acc [] = acc
  total_from acc (x ∷ xs) = total_from (add acc x) xs

  unfoldable pub moving_average : ℕ → List F → F
  moving_average n closes = div (total_from nought (last_of n closes)) (of_nat n)

  -- `_signal`
  abbrev signal_of : MarketEvent F → SignalDirection → F → String → SignalEvent F
  signal_of event direction quantity reason = record {
    strategy_id = "moving_average_crossover";
    symbol = event.symbol;
    timestamp = event.timestamp;
    direction = direction;
    intended_quantity = round8 quantity;
    reason = reason;
  }

  unfoldable pub on_market : Strategy F → MarketEvent F → Portfolio F → SignalEvent F
  unfolding moving_average
  on_market st event p =
      let fast_ma = moving_average st.fast_window st.history in
      let slow_ma = moving_average st.slow_window st.history in
      let current = position_quantity upper p event.symbol in
      if ltb (length st.history) st.slow_window
      then signal_of event SignalDirection.hold nought "warming up"
      else if lt slow_ma fast_ma && le current epsilon
      then signal_of event SignalDirection.buy
          (if eq event.open_price nought
            then nought
            else div (mul (equity upper p) st.target_exposure_pct) event.open_price)
          "fast moving average crossed above slow moving average"
      else if le fast_ma slow_ma && lt nought current
      then signal_of event SignalDirection.exit current
          "fast moving average is below or equal to slow moving average"
      else signal_of event SignalDirection.hold nought "moving averages unchanged"

  abbrev pub observe : MarketEvent F → Strategy F → Strategy F
  observe event st = record st { history = st.history ++ (event.close ∷ []) }
