-- ===== src/PaperTrading/Live/Sound.antt =====
-- What a bar of a live session keeps: the calls of the risk engine and the broker
-- (app/paper_trading/live_service.py).
use mercury_trading.Base.{
  suc, ◌≡◌, refl, true, not, inl, inr, ◌&&◌, arith, String, Result, ok, err, ok-injective, ◌>>=◌,
  Bool-cases, Option-cases, Result-cases, subst,
}
use mercury_trading.PaperTrading.Number.{Number, IsOrdered}
use mercury_trading.PaperTrading.Clock.{can_submit_orders}
use mercury_trading.PaperTrading.Events.{
  MarketEvent, SignalEvent, OrderEvent, OrderStatus, submitted, FillEvent,
}
use mercury_trading.PaperTrading.Portfolio.Defs.{Portfolio}
use mercury_trading.PaperTrading.Risk.Defs.{RiskEngine, check, rejection_reason}
use mercury_trading.PaperTrading.Strategy.{Strategy, on_market}
use mercury_trading.PaperTrading.Execution.Defs.{ExecutionError, ExecutionResult}
use mercury_trading.PaperTrading.Execution.Broker.{
  PaperBroker, first_fill, broker_execute, submit_order,
}
use mercury_trading.PaperTrading.Execution.Fills.{
  IsOutcome, no_fill, one_fill, broker_execute-IsOutcome,
}
use mercury_trading.PaperTrading.Replay.Defs.{is_submitted, is_hold}
use mercury_trading.PaperTrading.Replay.Loop.{order_of}
use mercury_trading.PaperTrading.Live.Defs.{
  Runner, LiveRequest, LiveError, LiveMarketBar, persist_live_order, record_live_event,
}
use mercury_trading.PaperTrading.Live.Bar.{
  is_out_of_order, market_event_from_bar, note_order, booked, send_order, act_on, close_live_bar,
  reached_event_limit, finish_bar, live_signal, trade_bar, on_live_bar,
}
use mercury_trading.PaperTrading.Live.Rows.{IsOf}
use mercury_trading.PaperTrading.Live.Stages.{
  IsSound, reject_stale-IsSound, strategy_failed-IsSound, note_live_signal-IsSound,
  block_order-IsSound, refuse_order-IsSound, begin_bar-IsSound, close_live_bar-IsSound,
  note_order-IsSound, book_live_fill-IsSound,
}

is_submitted-eq : (st : OrderStatus) → is_submitted st ≡ true → st ≡ submitted
is_submitted-eq st h = ground arith

module _ {F : Type 0} ⦃num : Number F⦄ where
  -- The first fill of an execution of a submitted order is a fill of it.
  first_fill-IsOf :
      (o : OrderEvent F) (f : FillEvent F) (x : Result ExecutionError (ExecutionResult F))
      → o.status ≡ submitted
      → IsOutcome o x
      → (x >>= λ r. first_fill r.fills) ≡ ok f
      → IsOf f o
  first_fill-IsOf o f (err e) sent out h = absurd (ground arith)
  first_fill-IsOf o f (ok r) sent (open_now, no_fill) h = absurd (ground arith)
  first_fill-IsOf o f (ok r) sent (open_now, one_fill after g i s d p q t u) h =
      subst (λ g. IsOf g o) (ok-injective h)
        (record {
          same_id = i;
          same_symbol = s;
          same_side = d;
          was_submitted = sent;
          positive = p;
          within = q;
        })

  submit_order-IsOf :
      (laws : IsOrdered F) (b : PaperBroker F) (o : OrderEvent F) (price : F) (f : FillEvent F)
      → o.status ≡ submitted
      → submit_order b o price ≡ ok f
      → IsOf f o
  unfolding submit_order
  submit_order-IsOf laws b o price f sent h =
      first_fill-IsOf o f (broker_execute b o _) sent (broker_execute-IsOutcome laws b o _) h

module _ {F : Type 0} ⦃num : Number F⦄ (upper : String → String) where
  -- The risk engine answers with the order it was given.
  check-same_order :
      (r : RiskEngine F) (o : OrderEvent F) (p : Portfolio F) (price : F)
      → ((check upper r o p price).1.order_id ≡ o.order_id)
        × ((check upper r o p price).1.created_at ≡ o.created_at)
  unfolding check
  check-same_order r o p price = elim (Option-cases (rejection_reason upper r o p price)) [
    | inl e ↦ rw e (refl, refl)
    | inr (x, e) ↦ rw e (refl, refl)
  ]

  on_market-timestamp :
      (st : Strategy F) (event : MarketEvent F) (p : Portfolio F)
      → (on_market upper st event p).timestamp ≡ event.timestamp
  unfolding on_market
  on_market-timestamp st event p = ground arith

  live_signal-timestamp :
      (st : Strategy F) (event : MarketEvent F) (p : Portfolio F) (signal : SignalEvent F)
      → live_signal upper st event p ≡ ok signal
      → signal.timestamp ≡ event.timestamp
  unfolding live_signal
  live_signal-timestamp st event p signal h = ground (arith, on_market-timestamp st event p)

  module _ (laws : IsOrdered F) (b : PaperBroker F) (request : LiveRequest) where
    abbrev IsGood : Runner F → Type 0
    IsGood s = IsSound upper request.respect_market_hours s

    booked-IsSound :
        (o : OrderEvent F) (x : Result ExecutionError (FillEvent F)) (s : Runner F)
        → ((f : FillEvent F) → x ≡ ok f → IsOf f o)
        → IsGood (note_order o s)
        → IsGood (booked upper x (note_order o s)).1
    unfolding note_order persist_live_order record_live_event
    booked-IsSound o (err e) s fills v = v
    booked-IsSound o (ok f) s fills v =
        let f_of = fills f refl in
        book_live_fill-IsSound upper request.respect_market_hours laws f (note_order o s) (inl f_of)
          f_of.positive v

    send_order-IsSound :
        (event : MarketEvent F) (signal : SignalEvent F) (s : Runner F)
        → (request.respect_market_hours ≡ true → can_submit_orders signal.timestamp ≡ true)
        → IsGood s
        → IsGood (send_order upper b event signal s).1
    unfolding send_order
    send_order-IsSound event signal s hours v =
        let given = order_of upper b signal s.next_id in
        let price = event.open_price in
        let o = (check upper s.risk given s.portfolio price).1 in
        let (same_id, same_time) = check-same_order s.risk given s.portfolio price in
        let noted =
          note_order-IsSound upper request.respect_market_hours o
            (record s { risk = (check upper s.risk given s.portfolio price).0 }) same_id
            (λ r. rw same_time (hours r)) v in
        elim (Bool-cases (is_submitted o.status)) [
          | inl sent ↦ rw sent (
              booked-IsSound o (submit_order b o price) _
                (λ f. submit_order-IsOf laws b o price f (is_submitted-eq o.status sent)) noted)
          | inr refused ↦
              rw refused (refuse_order-IsSound upper request.respect_market_hours _ noted)
        ]

    act_on-IsSound :
        (event : MarketEvent F) (signal : SignalEvent F) (s : Runner F)
        → signal.timestamp ≡ event.timestamp
        → IsGood s
        → IsGood (act_on upper b request event signal s).1
    unfolding act_on
    act_on-IsSound event signal s same v = elim (Bool-cases (is_hold signal.direction)) [
      | inl held ↦ rw held v
      | inr acts ↦
          elim (Bool-cases
            (request.respect_market_hours && not (can_submit_orders event.timestamp))) [
              | inl shut ↦
                  rw (acts, shut) (block_order-IsSound upper request.respect_market_hours event s v)
              | inr clear ↦
                  rw (acts, clear)
                    (send_order-IsSound event signal s (λ r. rw same (ground arith)) v)
            ]
    ]

    finish_bar-IsSound :
        (event : MarketEvent F) (x : Result LiveError (Unit {0}) × Runner F)
        → IsGood x.1
        → IsGood (finish_bar upper request event x).1
    finish_bar-IsSound event (err e, s) v = v
    finish_bar-IsSound event (ok u, s) v =
        let closed = close_live_bar-IsSound upper request.respect_market_hours event s v in
        elim (Bool-cases (
          reached_event_limit request.max_events
            (close_live_bar upper event s).counters.market_events)) [
              | inl at_limit ↦ rw at_limit closed
              | inr below ↦ rw below closed
            ]

    trade_bar-IsSound :
        (event : MarketEvent F) (s : Runner F)
        → IsGood s
        → IsGood (trade_bar upper b request event s).1
    unfolding trade_bar
    trade_bar-IsSound event s v =
        elim (Result-cases (live_signal upper s.strategy event s.portfolio)) [
          | inl (signal, e) ↦ rw e (
              finish_bar-IsSound event _ (
                act_on-IsSound event signal _
                  (live_signal-timestamp s.strategy event s.portfolio signal e)
                  (note_live_signal-IsSound upper request.respect_market_hours signal s v)))
          | inr (x, e) ↦ rw e (strategy_failed-IsSound upper request.respect_market_hours event s v)
        ]

    -- A bar of the feed, whatever comes of it.
    pub on_live_bar-IsSound :
        (bar : LiveMarketBar F) (s : Runner F)
        → IsGood s
        → IsGood (on_live_bar upper b request bar s).1
    unfolding on_live_bar
    on_live_bar-IsSound bar s v =
        let event = market_event_from_bar bar (suc s.counters.market_events) in
        elim (Bool-cases (is_out_of_order s.previous_market_timestamp event.timestamp)) [
          | inl stale ↦ rw stale (
              reject_stale-IsSound upper request.respect_market_hours event
                (record s { attempts = 0 }) v)
          | inr fresh ↦ rw fresh (
              trade_bar-IsSound event _ (
                begin_bar-IsSound upper request.respect_market_hours event
                  (record s { attempts = 0 }) fresh v))
        ]
