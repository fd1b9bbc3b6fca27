-- ===== src/PaperTrading/Tests.antt =====
-- Runs of the portfolio, the risk engine and the paper broker (app/paper_trading), with whole numbers of
-- cents for the floats.
use mercury_trading.Base.{
  ℕ, ◌+◌, ◌-◌, ◌*◌, ◌/◌, ◌≡◌, ◌↔◌, refl, true, false, none, some, [], ◌∷◌, ltb, leb, ◌==◌, ◌⊎◌,
  String, arith,
}
use mercury_trading.Base.Int.{pos}
use mercury_trading.PaperTrading.Number.{Number, IsOrdered}
use mercury_trading.PaperTrading.Events.{
  MarketEvent, OrderEvent, OrderSide, FillEvent, submitted, rejected,
}
use mercury_trading.PaperTrading.Portfolio.Defs.{
  Portfolio, new_portfolio, apply_fill, position_of, position_quantity, equity, exposure, price_of,
  lookup,
}
use mercury_trading.PaperTrading.Portfolio.Holdings.{IsLong, apply_fill-IsLong}
use mercury_trading.PaperTrading.Risk.Defs.{
  RiskEngine, check, rejection_reason, seen, key_of, same_key, projected_quantity,
  projected_exposure, estimated_cash_required,
}
use mercury_trading.PaperTrading.Risk.Limits.{
  IsWithin, check-submitted_iff, no_double_submit, check_ignores_pending,
}
use mercury_trading.PaperTrading.Execution.Defs.{
  microstructure, ExecutionConfig, observed_or_fixed, MarketState, execute_model,
  market_state_from_event, available, remaining,
}
use mercury_trading.PaperTrading.Execution.Broker.{PaperBroker, broker_execute}
use mercury_trading.PaperTrading.Execution.Fills.{
  IsOutcome, IsCapped, broker_execute-IsOutcome, microstructure-IsCapped,
}

instance abbrev pub cents : Number ℕ
cents = record {
  add = ◌+◌;
  sub = ◌-◌;
  mul = ◌*◌;
  div = ◌/◌;
  absolute = λ x. x;
  square_root = λ x. x;
  round8 = λ x. x;
  of_nat = λ n. n;
  epsilon = 0;
  le = leb;
  lt = ltb;
  eq = ◌==◌;
}

leb_total : (a b : ℕ) → (leb a b ≡ true) ⊎ (leb b a ≡ true)
leb_total a b = ground arith

pub cents-IsOrdered : IsOrdered ℕ
cents-IsOrdered = record {
  le_refl = λ a. ground arith;
  le_trans = λ a b c p q. ground arith;
  lt-eq-not-le = λ a b. ground arith;
  le_total = leb_total;
  eq_refl = λ a. ground arith;
  add_nonneg = λ a b p q. ground arith;
  sub_nonneg = λ a b p. ground arith;
}

abbrev pub same_text : String → String
same_text s = s

abbrev pub account : Portfolio ℕ
account = record {
  initial_cash = 1000;
  cash = 400;
  positions = ("ACME", record { quantity = 6; average_entry_price = 100 }) ∷ [];
  realized_pnl = 0;
  transaction_costs = 0;
  last_prices = ("ACME", 100) ∷ [];
}

abbrev pub sale : OrderEvent ℕ
sale = record {
  order_id = 1;
  strategy_id = "s";
  symbol = "ACME";
  side = OrderSide.sell;
  quantity = 5;
  created_at = 10;
  status = submitted;
  reason = none;
  filled_quantity = 0;
  average_fill_price = 0;
}

abbrev sale_fill : FillEvent ℕ
sale_fill = record {
  order_id = 1;
  strategy_id = "s";
  symbol = "ACME";
  side = OrderSide.sell;
  quantity = 9;
  price = 100;
  gross_notional = 900;
  fees = 1;
  slippage_cost = 0;
  timestamp = 11;
  spread_cost = 0;
  impact_cost = 0;
}

abbrev pub engine : RiskEngine ℕ
engine = record {
  config = record {
    max_position_quantity = 100;
    max_order_value = 1000;
    max_gross_exposure_pct = 1;
    commission_bps = 0;
    slippage_bps = 0;
  };
  seen_orders = [];
}

account-IsLong : IsLong same_text account
account-IsLong = (refl, tt)

apply_fill-IsLong_example : IsLong same_text (apply_fill same_text sale_fill account)
apply_fill-IsLong_example =
    apply_fill-IsLong same_text cents-IsOrdered sale_fill account refl account-IsLong

check-sale : (check same_text engine sale account 100).1.status ≡ submitted
unfolding check rejection_reason seen projected_quantity projected_exposure position_quantity
    position_of lookup exposure equity price_of estimated_cash_required
check-sale = refl

check-submitted_iff_example :
    ((check same_text engine sale account 100).1.status ≡ submitted)
    ↔ IsWithin same_text engine sale account 100
check-submitted_iff_example = check-submitted_iff same_text cents-IsOrdered engine sale account 100

abbrev after_sale : RiskEngine ℕ
after_sale = (check same_text engine sale account 100).0

no_double_submit_example :
    ((check same_text after_sale sale (new_portfolio same_text 7) 90).1.status ≡ rejected)
    × ((check same_text after_sale sale (new_portfolio same_text 7) 90).0 ≡ after_sale)
no_double_submit_example =
    no_double_submit same_text cents-IsOrdered engine sale account (new_portfolio same_text 7) 100
      90 check-sale

abbrev pub config : ExecutionConfig ℕ
config = record {
  model = microstructure;
  spread_model = observed_or_fixed;
  fixed_spread_bps = 0;
  slippage_bps = 0;
  max_participation_rate = 1;
  impact_coefficient_bps = 0;
  latency_bars = pos 0;
}

abbrev later_sale : OrderEvent ℕ
later_sale = record sale { created_at = 11 }

unseen_sale : seen same_text after_sale later_sale ≡ false
unfolding check rejection_reason seen key_of same_key projected_quantity projected_exposure
    position_quantity position_of lookup exposure equity price_of estimated_cash_required
unseen_sale = refl

check_ignores_pending_example :
    (check same_text after_sale later_sale account 100).1.status ≡ submitted
check_ignores_pending_example =
    check_ignores_pending same_text engine sale account 100 11 check-sale unseen_sale

abbrev pub broker : PaperBroker ℕ
broker = record { commission_rate = 1; execution_config = config }

abbrev pub bar : MarketEvent ℕ
bar = record {
  timestamp = 11;
  symbol = "ACME";
  open_price = 100;
  high = 110;
  low = 90;
  close = 105;
  volume = 3;
  sequence = 0;
  bid = some 99;
  ask = some 101;
  last_price = none;
}

broker_execute-IsOutcome_example : IsOutcome sale (broker_execute broker sale bar)
broker_execute-IsOutcome_example = broker_execute-IsOutcome cents-IsOrdered broker sale bar

abbrev quotes : MarketState ℕ
quotes = market_state_from_event bar config

microstructure-IsCapped_example :
    IsCapped (available quotes config) (execute_model microstructure sale quotes config)
    × IsCapped (remaining sale) (execute_model microstructure sale quotes config)
microstructure-IsCapped_example = microstructure-IsCapped cents-IsOrdered sale quotes config
