-- ===== src/PaperTrading/Replay/Dropped.antt =====
-- Orders that meet a bar without liquidity in a replay with no latency (app/paper_trading/service.py).
use mercury_trading.Base.{◌≡◌, refl, true, [], String, ok}
use mercury_trading.PaperTrading.Number.{Number, nought, min_of, IsOrdered}
use mercury_trading.PaperTrading.Events.{MarketEvent, OrderEvent, submitted}
use mercury_trading.PaperTrading.Execution.Defs.{
  ExecutionModelName, microstructure, market_state_from_event, remaining, available, execute_model,
  fill_order, MarketState, ExecutionConfig,
}
use mercury_trading.PaperTrading.Execution.Broker.{PaperBroker, broker_execute}
use mercury_trading.PaperTrading.Execution.Fills.{min_of-le-right}
use mercury_trading.PaperTrading.Replay.Defs.{
  Replay, is_zero_ℤ, persist_order, book_fills, book_result,
}
use mercury_trading.PaperTrading.Replay.Loop.{route}

module _ {F : Type 0} ⦃num : Number F⦄ (laws : IsOrdered F) where
  open num use {le}

  execute_dry :
      (n : ExecutionModelName) (o : OrderEvent F) (m : MarketState F) (c : ExecutionConfig F)
      → n ≡ microstructure
      → o.status ≡ submitted
      → le (available m c) nought ≡ true
      → execute_model n o m c ≡ ok (record { order = o; fills = [] })
  unfolding execute_model fill_order
  execute_dry n o m c micro sent dry =
      let least = min_of (remaining o) (available m c) in
      let small = laws.le_trans least (available m c) nought (min_of-le-right laws _ _) dry in
      rw (micro, sent, small)

  broker_execute_dry :
      (b : PaperBroker F) (o : OrderEvent F) (event : MarketEvent F)
      → o.status ≡ submitted
      → b.execution_config.model ≡ microstructure
      → le (available (market_state_from_event event b.execution_config) b.execution_config) nought
        ≡ true
      → broker_execute b o event ≡ ok (record { order = o; fills = [] })
  unfolding broker_execute
  broker_execute_dry b o event sent micro dry =
      let c = b.execution_config in
      rw (execute_dry c.model o (market_state_from_event event c) c micro sent dry)

  -- For ordered numbers, with no latency and the microstructure model, routing a submitted order
  -- on a bar without liquidity succeeds and leaves the pending orders, the fills and the portfolio
  -- as they were: the order is neither filled nor queued.
  pub route_drops :
      (upper : String → String) (b : PaperBroker F) (event : MarketEvent F) (o : OrderEvent F)
      (s : Replay F)
      → o.status ≡ submitted
      → b.execution_config.model ≡ microstructure
      → is_zero_ℤ b.execution_config.latency_bars ≡ true
      → le (available (market_state_from_event event b.execution_config) b.execution_config) nought
        ≡ true
      → (t : Replay F) × (route upper b event o s ≡ ok t)
        × (t.pending_orders ≡ s.pending_orders)
        × (t.fills ≡ s.fills)
        × (t.portfolio ≡ s.portfolio)
  unfolding route book_result book_fills persist_order
  route_drops upper b event o s sent micro at_once dry =
      rw (at_once, broker_execute_dry b o event sent micro dry, sent) (_, refl, refl, refl, refl)
