-- ===== src/PaperTrading/Risk/Limits.antt =====
-- What the risk engine lets through (app/paper_trading/risk.py).
use mercury_trading.Base.{
  ℕ, ◌≡◌, ◌≢◌, ◌↔◌, refl, true, false, not, ◌&&◌, none, List, ◌∷◌, arith, String, eq_refl,
  Option-cases, inl, inr, ==_refl,
}
use mercury_trading.PaperTrading.Number.{Number, IsOrdered, nought}
use mercury_trading.PaperTrading.Events.{
  OrderEvent, OrderSide, submitted, rejected, is_buy, same_side,
}
use mercury_trading.PaperTrading.Portfolio.Defs.{Portfolio, position_quantity, equity}
use mercury_trading.PaperTrading.Risk.Defs.{
  RiskEngine, OrderKey, key_of, same_key, seen, estimated_cash_required, projected_quantity,
  projected_exposure, rejection_reason, check,
}

same_side_refl : (s : OrderSide) → same_side s s ≡ true
same_side_refl OrderSide.buy = refl
same_side_refl OrderSide.sell = refl

module _ {F : Type 0} ⦃num : Number F⦄ (upper : String → String) where
  -- An order that the engine may submit: new, of a positive quantity, and with its value, the position
  -- and the exposure that it leads to, and for a purchase the cash that it takes, within the limits. A
  -- sale may overdraw the position by the tolerance at most.
  pub record IsWithin (e : RiskEngine F) (o : OrderEvent F) (p : Portfolio F) (price : F)
      : Type 0 where
    pub quantity_positive : num.lt nought o.quantity ≡ true
    pub value_ok : num.le (num.mul o.quantity price) e.config.max_order_value ≡ true
    pub is_new : seen upper e o ≡ false
    pub no_short :
        num.le
          (num.sub nought num.epsilon)
          (projected_quantity upper o (position_quantity upper p o.symbol))
        ≡ true
    pub position_ok :
        num.le
          (num.absolute (projected_quantity upper o (position_quantity upper p o.symbol)))
          e.config.max_position_quantity
        ≡ true
    pub cash_ok :
        (is_buy o.side && not (num.le (estimated_cash_required upper e.config o price) p.cash))
        ≡ false
    pub exposure_ok :
        num.le
          (projected_exposure upper o p price)
          (num.mul (equity upper p) e.config.max_gross_exposure_pct)
        ≡ true

  same_key_refl : IsOrdered F → (k : OrderKey F) → same_key upper k k ≡ true
  unfolding same_key
  same_key_refl laws k = rw (
    eq_refl k.strategy_id,
    eq_refl k.symbol,
    ==_refl k.created_at,
    same_side_refl k.side,
    laws.eq_refl k.quantity,
  )

  -- The reason is some reason, once the order has been seen.
  reason_seen :
      (e : RiskEngine F) (o : OrderEvent F) (p : Portfolio F) (price : F)
      → seen upper e o ≡ true
      → rejection_reason upper e o p price ≢ none
  unfolding rejection_reason
  reason_seen e o p price h = ground arith

  -- A check of an order that has been seen rejects it and changes nothing.
  rejects_seen :
      (e : RiskEngine F) (o : OrderEvent F) (p : Portfolio F) (price : F)
      → seen upper e o ≡ true
      → ((check upper e o p price).1.status ≡ rejected) × ((check upper e o p price).0 ≡ e)
  unfolding check
  rejects_seen e o p price h = elim (Option-cases (rejection_reason upper e o p price)) [
    | inl r ↦ absurd (reason_seen e o p price h r)
    | inr (x, r) ↦ rw r (refl, refl)
  ]

  module _ (laws : IsOrdered F) where
    open laws use {lt-eq-not-le}

    check-seen :
        (e : RiskEngine F) (o : OrderEvent F) (p : Portfolio F) (price : F)
        → (check upper e o p price).1.status ≡ submitted
        → seen upper (check upper e o p price).0 o ≡ true
    unfolding check seen
    check-seen e o p price h = elim (Option-cases (rejection_reason upper e o p price)) [
      | inl r ↦ rw (r, same_key_refl laws (key_of upper o))
      | inr (x, r) ↦ absurd (ground arith)
    ]

    reason_none_iff :
        (e : RiskEngine F) (o : OrderEvent F) (p : Portfolio F) (price : F)
        → (rejection_reason upper e o p price ≡ none) ↔ IsWithin e o p price
    unfolding rejection_reason
    reason_none_iff e o p price =
        let projected = projected_quantity upper o (position_quantity upper p o.symbol) in
        ground (
          arith,
          lt-eq-not-le nought o.quantity,
          lt-eq-not-le e.config.max_order_value (num.mul o.quantity price),
          lt-eq-not-le projected (num.sub nought num.epsilon),
          lt-eq-not-le e.config.max_position_quantity (num.absolute projected),
          lt-eq-not-le p.cash (estimated_cash_required upper e.config o price),
          lt-eq-not-le (num.mul (equity upper p) e.config.max_gross_exposure_pct)
              (projected_exposure upper o p price),
        )

    -- For ordered numbers, the risk engine submits an order if and only if it is new, of a
    -- positive quantity, and within the limits on order value, position, cash and exposure.
    pub check-submitted_iff :
        (e : RiskEngine F) (o : OrderEvent F) (p : Portfolio F) (price : F)
        → ((check upper e o p price).1.status ≡ submitted) ↔ IsWithin e o p price
    unfolding check
    check-submitted_iff e o p price = elim (Option-cases (rejection_reason upper e o p price)) [
      | inl r ↦ rw r ((λ _. (reason_none_iff e o p price).0 r), (λ _. refl))
      | inr (x, r) ↦ rw r (
        (λ h. absurd (ground arith)),
        (λ w. absurd (let r' = (reason_none_iff e o p price).1 w in ground arith)),
      )
    ]

    -- For ordered numbers, an order that the risk engine submitted is rejected by the engine that
    -- results, at whatever price and with whatever portfolio, and that second check changes
    -- nothing.
    pub no_double_submit :
        (e : RiskEngine F) (o : OrderEvent F) (p q : Portfolio F) (price price' : F)
        → (check upper e o p price).1.status ≡ submitted
        → let e' = (check upper e o p price).0 in
          ((check upper e' o q price').1.status ≡ rejected) × ((check upper e' o q price').0 ≡ e')
    no_double_submit e o p q price price' h =
        let e' = (check upper e o p price).0 in
        rejects_seen e' o q price' (check-seen e o p price h)

  reason_later :
      (e : RiskEngine F) (seen_orders : List (OrderKey F)) (o : OrderEvent F) (p : Portfolio F)
      (price : F) (later : ℕ)
      → rejection_reason upper e o p price ≡ none
      → seen upper (record e { seen_orders = seen_orders }) (record o { created_at = later })
        ≡ false
      → rejection_reason upper
          (record e { seen_orders = seen_orders })
          (record o { created_at = later })
          p
          price
        ≡ none
  unfolding rejection_reason projected_quantity projected_exposure estimated_cash_required
  reason_later e seen_orders o p price later r new = ground arith

  -- After an order was submitted, an order that differs from it only in its time of creation and
  -- has not been seen is submitted as well, for the same portfolio and price: what is pending
  -- counts for nothing.
  pub check_ignores_pending :
      (e : RiskEngine F) (o : OrderEvent F) (p : Portfolio F) (price : F) (later : ℕ)
      → (check upper e o p price).1.status ≡ submitted
      → seen upper (check upper e o p price).0 (record o { created_at = later }) ≡ false
      → (check upper (check upper e o p price).0 (record o { created_at = later }) p price).1.status
        ≡ submitted
  unfolding check
  check_ignores_pending e o p price later h new =
      elim (Option-cases (rejection_reason upper e o p price)) [
        | inl r ↦
            let keys = key_of upper o ∷ e.seen_orders in
            rw (r, reason_later e keys o p price later r (rw r at new))
        | inr (x, r) ↦ absurd (ground arith)
      ]
