-- ===== src/PaperTrading/Live/Rows.antt =====
-- What the rows of a live session have to be (app/paper_trading/live_service.py).
use mercury_trading.Base.{
  ℕ, suc, ◌≡◌, ◌<◌, ◌≤◌, Bool, true, false, Option, none, some, List, [], ◌∷◌, ◌⊎◌, inr, All,
  All-map_of, arith,
}
use mercury_trading.PaperTrading.Number.{Number, nought}
use mercury_trading.PaperTrading.Clock.{can_submit_orders}
use mercury_trading.PaperTrading.Events.{EventType, OrderEvent, submitted, FillEvent}
use mercury_trading.PaperTrading.Execution.Defs.{remaining}
use mercury_trading.PaperTrading.Live.Defs.{TraceEvent, EventTime, at_market}

-- The events of a trace, the latest first, have decreasing sequence numbers below a bound.
abbrev pub IsNumberedBelow : ℕ → List TraceEvent → Type 0
IsNumberedBelow n [] = Unit
IsNumberedBelow n (e ∷ es) = (e.sequence < n) × IsNumberedBelow e.sequence es

-- The timestamp of an event of the market.
abbrev pub market_time : EventType → EventTime → Option ℕ
market_time EventType.market (at_market t) = some t
market_time _ _ = none

abbrev pub is_market : EventType → Bool
is_market EventType.market = true
is_market _ = false

abbrev pub IsBefore : ℕ → Option ℕ → Type 0
IsBefore n none = Unit
IsBefore n (some t) = t < n

abbrev pub next_bound : ℕ → Option ℕ → ℕ
next_bound n none = n
next_bound n (some t) = t

-- The market events of a trace, the latest first, have decreasing timestamps below a bound.
abbrev pub IsTimedBelow : ℕ → List TraceEvent → Type 0
IsTimedBelow n [] = Unit
IsTimedBelow n (e ∷ es) =
    IsBefore n (market_time e.event_type e.event_time)
    × IsTimedBelow (next_bound n (market_time e.event_type e.event_time)) es

-- The bound that the last processed market event sets.
abbrev pub after_time : Option ℕ → ℕ
after_time none = 0
after_time (some t) = suc t

-- The ids of the orders, the latest first, are decreasing below a bound.
abbrev pub IsIssuedBelow : {F : Type 0} → ℕ → List (OrderEvent F) → Type 0
IsIssuedBelow n [] = Unit
IsIssuedBelow n (o ∷ os) = (o.order_id < n) × IsIssuedBelow o.order_id os

pub IsNumberedBelow-mono :
    (n k : ℕ) (es : List TraceEvent) → n ≤ k → IsNumberedBelow n es → IsNumberedBelow k es
IsNumberedBelow-mono n k [] le h = tt
IsNumberedBelow-mono n k (e ∷ es) le h = (omega (arith, h.0), h.1)

pub IsTimedBelow-mono :
    (n k : ℕ) (es : List TraceEvent) → n ≤ k → IsTimedBelow n es → IsTimedBelow k es
IsTimedBelow-mono n k [] le h = tt
IsTimedBelow-mono n k (e ∷ es) le h =
    go (market_time e.event_type e.event_time) (IsTimedBelow-mono n k es le) h
  where
    go :
        (t : Option ℕ)
        → (IsTimedBelow n es → IsTimedBelow k es)
        → IsBefore n t × IsTimedBelow (next_bound n t) es
        → IsBefore k t × IsTimedBelow (next_bound k t) es
    go none f h = (tt, f h.1)
    go (some t) f h = (omega (arith, h.0), h.1)

-- An event that is not of the market has no time there.
pub market_time-none :
    (type : EventType) (time : EventTime) → is_market type ≡ false → market_time type time ≡ none
market_time-none type time h = ground arith

module _ {F : Type 0} ⦃num : Number F⦄ where
  -- The order was submitted, and the fill is of a positive part of it.
  pub record IsOf (f : FillEvent F) (o : OrderEvent F) : Type 0 where
    pub same_id : f.order_id ≡ o.order_id
    pub same_symbol : f.symbol ≡ o.symbol
    pub same_side : f.side ≡ o.side
    pub was_submitted : o.status ≡ submitted
    pub positive : num.le f.quantity nought ≡ false
    pub within : num.le f.quantity (remaining o) ≡ true

  -- One of the orders is that of the fill.
  abbrev pub IsBacked : List (OrderEvent F) → FillEvent F → Type 0
  IsBacked [] f = ⊥
  IsBacked (o ∷ os) f = IsOf f o ⊎ IsBacked os f

  -- Rows up to a sequence number, before a time and with ids below a bound; `respect` is
  -- `respect_market_hours`.
  pub record IsConsistent (respect : Bool) (n m k : ℕ) (trace : List TraceEvent)
      (orders : List (OrderEvent F)) (fills : List (FillEvent F)) : Type 0 where
    pub numbered : IsNumberedBelow (suc n) trace
    pub timed : IsTimedBelow m trace
    pub issued : IsIssuedBelow k orders
    pub backed : All (IsBacked orders) fills
    pub in_hours : respect ≡ true → All (λ o. can_submit_orders o.created_at ≡ true) orders

  module _ (respect : Bool) (n m k : ℕ) (trace : List TraceEvent) (orders : List (OrderEvent F))
      (fills : List (FillEvent F)) where
    -- An event that is recorded next.
    pub IsConsistent-event :
        (type : EventType) (time : EventTime)
        → is_market type ≡ false
        → IsConsistent respect n m k trace orders fills
        → IsConsistent respect
            (suc n)
            m
            k
            (record { sequence = suc n; event_type = type; event_time = time } ∷ trace)
            orders
            fills
    IsConsistent-event type time other v = record {
      numbered = (omega arith, v.numbered);
      timed = rw (market_time-none type time other) (tt, v.timed);
      issued = v.issued;
      backed = v.backed;
      in_hours = v.in_hours;
    }

    -- A market event that is recorded next.
    pub IsConsistent-market :
        (t : ℕ)
        → m ≤ t
        → IsConsistent respect n m k trace orders fills
        → IsConsistent respect
            (suc n)
            (suc t)
            k
            (record { sequence = suc n; event_type = EventType.market; event_time = at_market t }
              ∷ trace)
            orders
            fills
    IsConsistent-market t le v = record {
      numbered = (omega arith, v.numbered);
      timed = (omega arith, IsTimedBelow-mono m t trace le v.timed);
      issued = v.issued;
      backed = v.backed;
      in_hours = v.in_hours;
    }

    -- An order with the next id.
    pub IsConsistent-order :
        (o : OrderEvent F)
        → o.order_id ≡ k
        → (respect ≡ true → can_submit_orders o.created_at ≡ true)
        → IsConsistent respect n m k trace orders fills
        → IsConsistent respect n m (suc k) trace (o ∷ orders) fills
    IsConsistent-order o same hours v = record {
      numbered = v.numbered;
      timed = v.timed;
      issued = (omega (arith, same), rw same v.issued);
      backed = All-map_of _ _ (λ f b. inr b) fills v.backed;
      in_hours = λ r. (hours r, v.in_hours r);
    }

    pub IsConsistent-fill :
        (f : FillEvent F)
        → IsBacked orders f
        → IsConsistent respect n m k trace orders fills
        → IsConsistent respect n m k trace orders (f ∷ fills)
    IsConsistent-fill f b v = record {
      numbered = v.numbered;
      timed = v.timed;
      issued = v.issued;
      backed = (b, v.backed);
      in_hours = v.in_hours;
    }

    -- Later bounds.
    pub IsConsistent-mono :
        (n' m' k' : ℕ)
        → n ≤ n'
        → m ≤ m'
        → k ≤ k'
        → IsConsistent respect n m k trace orders fills
        → IsConsistent respect n' m' k' trace orders fills
    IsConsistent-mono n' m' k' p q r v = record {
      numbered = IsNumberedBelow-mono (suc n) (suc n') trace (omega arith) v.numbered;
      timed = IsTimedBelow-mono m m' trace q v.timed;
      issued = IsIssuedBelow-mono orders v.issued;
      backed = v.backed;
      in_hours = v.in_hours;
    }
      where
        IsIssuedBelow-mono : (os : List (OrderEvent F)) → IsIssuedBelow k os → IsIssuedBelow k' os
        IsIssuedBelow-mono [] h = tt
        IsIssuedBelow-mono (o ∷ os) h = (omega (arith, h.0), h.1)
