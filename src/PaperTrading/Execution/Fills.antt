-- ===== src/PaperTrading/Execution/Fills.antt =====
-- What the paper broker may do to an order (app/paper_trading/execution.py, app/paper_trading/broker.py).
use mercury_trading.Base.{
  ◌≡◌, refl, Bool, true, false, ◌||◌, ◌⊎◌, inl, inr, [], ◌∷◌, map, if◌then◌else◌, Result, ok, err,
  ◌>>=◌, Bool-cases, All, arith,
}
use mercury_trading.PaperTrading.Number.{Number, nought, min_of, max_of, IsOrdered}
use mercury_trading.PaperTrading.Events.{
  MarketEvent, OrderEvent, FillEvent, partially_filled, filled,
}
use mercury_trading.PaperTrading.Execution.Defs.{
  ExecutionModelName, ideal, basic_slippage, microstructure, ExecutionConfig, MarketState,
  ExecutionResult, ExecutionError, not_submitted, is_open, market_state_from_event, filled_order,
  fill_of, remaining, fill_order, available, execute_model,
}
use mercury_trading.PaperTrading.Execution.Broker.{PaperBroker, with_fees, broker_execute}

module _ {F : Type 0} ⦃num : Number F⦄ where
  open num use {add, le, lt}

  -- An order that is left as it was, or one fill of it: of its symbol and side, of a positive quantity
  -- that is at most what remained, and counted in an order that is still open or filled.
  pub data IsFilledBy (o : OrderEvent F) : ExecutionResult F → Type 0 where
    no_fill : IsFilledBy o (record { order = o; fills = [] })
    one_fill :
        (after : OrderEvent F) (f : FillEvent F)
        → f.order_id ≡ o.order_id
        → f.symbol ≡ o.symbol
        → f.side ≡ o.side
        → le f.quantity nought ≡ false
        → le f.quantity (remaining o) ≡ true
        → after.filled_quantity ≡ add o.filled_quantity f.quantity
        → (after.status ≡ filled) ⊎ (after.status ≡ partially_filled)
        → IsFilledBy o (record { order = after; fills = f ∷ [] })

  pub with_fees-IsFilledBy :
      (rate : F) {o : OrderEvent F} {r : ExecutionResult F}
      → IsFilledBy o r
      → IsFilledBy o (record { order = r.order; fills = map (with_fees rate) r.fills })
  unfolding with_fees
  with_fees-IsFilledBy rate no_fill = no_fill
  with_fees-IsFilledBy rate (one_fill after f i s d p q t u) =
      one_fill after (with_fees rate f) i s d p q t u

  status_of :
      (t q : F)
      → ((if le q t then filled else partially_filled) ≡ filled)
        ⊎ ((if le q t then filled else partially_filled) ≡ partially_filled)
  status_of t q = elim (Bool-cases (le q t)) [ inl e ↦ inl (rw e) | inr e ↦ inr (rw e) ]

  pub min_of-le-left : (laws : IsOrdered F) (a b : F) → le (min_of a b) a ≡ true
  min_of-le-left laws a b = elim (laws.le_total a b) [
    | inl e ↦ ground (arith, laws.lt-eq-not-le b a, laws.le_refl a)
    | inr e ↦ ground (arith, laws.lt-eq-not-le b a, laws.le_refl a)
  ]

  pub min_of-le-right : (laws : IsOrdered F) (a b : F) → le (min_of a b) b ≡ true
  min_of-le-right laws a b = elim (laws.le_total a b) [
    | inl e ↦ ground (arith, laws.lt-eq-not-le b a, laws.le_refl b)
    | inr e ↦ ground (arith, laws.lt-eq-not-le b a, laws.le_refl b)
  ]

  -- What a run of an execution model or of the broker comes to: the error, where the order is not open, or
  -- else an order that is filled as `IsFilledBy` says.
  abbrev pub IsOutcome : OrderEvent F → Result ExecutionError (ExecutionResult F) → Type 0
  IsOutcome o (ok r) = (is_open o.status ≡ true) × IsFilledBy o r
  IsOutcome o (err e) = (is_open o.status ≡ false) × (e ≡ not_submitted)

  pub fill_order-IsOutcome :
      (o : OrderEvent F) (m : MarketState F) (c : ExecutionConfig F) (q : F)
      (use_quote use_impact : Bool)
      → le q (remaining o) ≡ true
      → IsOutcome o (fill_order o m c q use_quote use_impact)
  unfolding fill_order filled_order fill_of
  fill_order-IsOutcome o m c q u v small = elim (Bool-cases (is_open o.status)) [
    | inl open_now ↦ elim (Bool-cases (le q nought || le (max_of nought (remaining o)) nought)) [
      | inl none_left ↦ rw (open_now, none_left) (open_now, no_fill)
      | inr some_left ↦
          rw (open_now, some_left)
            (
              open_now,
              one_fill _ _ refl refl refl (ground arith) small refl (status_of _ o.quantity),
            )
    ]
    | inr closed ↦ rw closed (closed, refl)
  ]

  charged-IsOutcome :
      (rate : F) (o : OrderEvent F) (x : Result ExecutionError (ExecutionResult F))
      → IsOutcome o x
      → IsOutcome o
          (x >>= λ r. ok (record { order = r.order; fills = map (with_fees rate) r.fills }))
  charged-IsOutcome rate o (ok r) (open_now, f) = (open_now, with_fees-IsFilledBy rate f)
  charged-IsOutcome rate o (err e) h = h

  -- Every fill of a result is of at most `cap`.
  abbrev pub IsCapped : F → Result ExecutionError (ExecutionResult F) → Type 0
  IsCapped cap (ok r) = All (λ f. le f.quantity cap ≡ true) r.fills
  IsCapped cap (err e) = Unit

  fill_order-IsCapped :
      (o : OrderEvent F) (m : MarketState F) (c : ExecutionConfig F) (q cap : F)
      (use_quote use_impact : Bool)
      → le q cap ≡ true
      → IsCapped cap (fill_order o m c q use_quote use_impact)
  unfolding fill_order fill_of
  fill_order-IsCapped o m c q cap u v small = elim (Bool-cases (is_open o.status)) [
    | inl open_now ↦ elim (Bool-cases (le q nought || le (max_of nought (remaining o)) nought)) [
      | inl none_left ↦ rw (open_now, none_left) tt
      | inr some_left ↦ rw (open_now, some_left) (small, tt)
    ]
    | inr closed ↦ rw closed tt
  ]

  module _ (laws : IsOrdered F) where
    execute_model-IsOutcome :
        (n : ExecutionModelName) (o : OrderEvent F) (m : MarketState F) (c : ExecutionConfig F)
        → IsOutcome o (execute_model n o m c)
    unfolding execute_model
    execute_model-IsOutcome ideal o m c =
        fill_order-IsOutcome o m c (remaining o) false false (laws.le_refl _)
    execute_model-IsOutcome basic_slippage o m c =
        fill_order-IsOutcome o m c (remaining o) true false (laws.le_refl _)
    execute_model-IsOutcome microstructure o m c =
        fill_order-IsOutcome o m c _ true true (min_of-le-left laws _ _)

    -- For ordered numbers, the paper broker raises its error exactly for orders that are not open;
    -- for an open order it returns the order unchanged with no fill, or one fill of its id, symbol
    -- and side, of a positive quantity that is at most what remained, added to the filled quantity
    -- of an order that is then filled or partially filled.
    pub broker_execute-IsOutcome :
        (b : PaperBroker F) (o : OrderEvent F) (event : MarketEvent F)
        → IsOutcome o (broker_execute b o event)
    unfolding broker_execute
    broker_execute-IsOutcome b o event =
        let c = b.execution_config in
        charged-IsOutcome b.commission_rate o _
          (execute_model-IsOutcome c.model o (market_state_from_event event c) c)

    -- For ordered numbers, every fill of the microstructure model is at most the share of the
    -- bar's volume that the configuration lets it take, and at most what remained of the order.
    pub microstructure-IsCapped :
        (o : OrderEvent F) (m : MarketState F) (c : ExecutionConfig F)
        → IsCapped (available m c) (execute_model microstructure o m c)
          × IsCapped (remaining o) (execute_model microstructure o m c)
    unfolding execute_model
    microstructure-IsCapped o m c = (
      fill_order-IsCapped o m c _ (available m c) true true (min_of-le-right laws _ _),
      fill_order-IsCapped o m c _ (remaining o) true true (min_of-le-left laws _ _),
    )
