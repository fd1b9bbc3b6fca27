-- ===== src/PaperTrading/Execution/Broker.antt =====
-- `PaperBroker` (app/paper_trading/broker.py).
use mercury_trading.Base.{◌^◌, none, List, [], ◌∷◌, map, Result, ok, err, ◌>>=◌}
use mercury_trading.PaperTrading.Number.{Number}
use mercury_trading.PaperTrading.Events.{MarketEvent, OrderEvent, FillEvent}
use mercury_trading.PaperTrading.Execution.Defs.{
  ExecutionError, not_filled, ExecutionConfig, ExecutionResult, market_state_from_event,
  execute_model,
}

pub record PaperBroker (F : Type 0) : Type 0 where
  pub commission_rate : F
  pub execution_config : ExecutionConfig F

module _ {F : Type 0} ⦃num : Number F⦄ where
  open num use {mul, round8}

  unfoldable pub with_fees : F → FillEvent F → FillEvent F
  with_fees rate fill = record fill { fees = round8 (mul fill.gross_notional rate) }

  -- `PaperBroker.execute`
  unfoldable pub broker_execute :
      PaperBroker F → OrderEvent F → MarketEvent F → Result ExecutionError (ExecutionResult F)
  unfolding with_fees
  broker_execute b o event = do
    let c = b.execution_config
    r ← execute_model c.model o (market_state_from_event event c) c
    ok (record { order = r.order; fills = map (with_fees b.commission_rate) r.fills })

  abbrev pub first_fill : List (FillEvent F) → Result ExecutionError (FillEvent F)
  first_fill [] = err not_filled
  first_fill (f ∷ fs) = ok f

  -- `PaperBroker.submit_order`, on a synthetic event with a volume of 10^12.
  unfoldable pub submit_order :
      PaperBroker F → OrderEvent F → F → Result ExecutionError (FillEvent F)
  submit_order b o market_price = do
    r ← broker_execute b o (record {
      timestamp = o.created_at;
      symbol = o.symbol;
      open_price = market_price;
      high = market_price;
      low = market_price;
      close = market_price;
      volume = 10 ^ 12;
      sequence = 0;
      bid = none;
      ask = none;
      last_price = none;
    })
    first_fill r.fills
