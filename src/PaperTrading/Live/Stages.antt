-- ===== src/PaperTrading/Live/Stages.antt =====
-- What the stretches of the loop over the bars keep (app/paper_trading/live_service.py).
use mercury_trading.Base.{
  ℕ, suc, ◌≡◌, ◌≤◌, refl, Bool, true, false, Option, none, some, ◌∷◌, inl, inr, arith, String,
}
use mercury_trading.PaperTrading.Number.{Number, IsOrdered, nought}
use mercury_trading.PaperTrading.Clock.{can_submit_orders}
use mercury_trading.PaperTrading.Events.{EventType, MarketEvent, SignalEvent, OrderEvent, FillEvent}
use mercury_trading.PaperTrading.Portfolio.Defs.{apply_fill, mark_price}
use mercury_trading.PaperTrading.Portfolio.Holdings.{IsLong, apply_fill-IsLong}
use mercury_trading.PaperTrading.Live.Defs.{
  Runner, EventTime, open_session, commit, set_feed_status, record_live_event, persist_live_order,
  persist_live_fill, update_session_metrics,
}
use mercury_trading.PaperTrading.Live.Bar.{
  is_out_of_order, reject_stale, strategy_failed, note_live_signal, block_order, note_order,
  refuse_order, begin_bar, book_live_fill, close_live_bar,
}
use mercury_trading.PaperTrading.Live.Rows.{
  is_market, after_time, IsBacked, IsConsistent, IsConsistent-event, IsConsistent-market,
  IsConsistent-order, IsConsistent-fill, IsConsistent-mono,
}

stale-lt : (o : Option ℕ) (t : ℕ) → is_out_of_order o t ≡ false → after_time o ≤ t
unfolding is_out_of_order
stale-lt none t h = omega arith
stale-lt (some p) t h = ground arith

module _ {F : Type 0} ⦃num : Number F⦄ (upper : String → String) (respect : Bool) where
  -- The saved rows and the draft are consistent, and no position is short.
  abbrev pub IsSound : Runner F → Type 0
  IsSound s =
      IsConsistent respect s.sequence (after_time s.previous_market_timestamp) s.next_id
        s.saved.trace s.saved.orders s.saved.fills
      × IsConsistent respect s.sequence (after_time s.previous_market_timestamp) s.next_id
          s.draft.trace s.draft.orders s.draft.fills
      × IsLong upper s.portfolio

  pub record_live_event-IsSound :
      (type : EventType) (time : EventTime) (s : Runner F)
      → is_market type ≡ false
      → IsSound s
      → IsSound (record_live_event type time s)
  unfolding record_live_event
  record_live_event-IsSound type time s other (v, d, l) =
      let n = s.sequence in
      let m = after_time s.previous_market_timestamp in
      (
        IsConsistent-mono respect n m s.next_id s.saved.trace s.saved.orders s.saved.fills (suc n) m
            s.next_id (omega arith) (omega arith) (omega arith) v,
        IsConsistent-event respect n m s.next_id s.draft.trace s.draft.orders s.draft.fills type
            time other d,
        l,
      )

  pub reject_stale-IsSound :
      (event : MarketEvent F) (s : Runner F) → IsSound s → IsSound (reject_stale event s)
  unfolding reject_stale open_session commit update_session_metrics record_live_event
  reject_stale-IsSound event s (v, d, l) =
      let (v', d', l') =
        record_live_event-IsSound EventType.error _ (open_session s) refl (v, v, l) in
      (d', d', l')

  pub strategy_failed-IsSound :
      (event : MarketEvent F) (s : Runner F) → IsSound s → IsSound (strategy_failed upper event s)
  unfolding strategy_failed commit record_live_event
  strategy_failed-IsSound event s v =
      let (v', d', l') = record_live_event-IsSound EventType.error _ s refl v in (d', d', l')

  pub note_live_signal-IsSound :
      (signal : SignalEvent F) (s : Runner F) → IsSound s → IsSound (note_live_signal signal s)
  unfolding note_live_signal record_live_event
  note_live_signal-IsSound signal s v = record_live_event-IsSound EventType.signal _ s refl v

  pub block_order-IsSound :
      (event : MarketEvent F) (s : Runner F) → IsSound s → IsSound (block_order event s)
  unfolding block_order record_live_event
  block_order-IsSound event s v = record_live_event-IsSound EventType.error _ s refl v

  pub refuse_order-IsSound : (s : Runner F) → IsSound s → IsSound (refuse_order s)
  unfolding refuse_order
  refuse_order-IsSound s v = v

  -- A bar that is not stale opens a session on sound rows.
  pub begin_bar-IsSound :
      (event : MarketEvent F) (s : Runner F)
      → is_out_of_order s.previous_market_timestamp event.timestamp ≡ false
      → IsSound s
      → IsSound (begin_bar upper event s)
  unfolding begin_bar open_session set_feed_status record_live_event mark_price
  begin_bar-IsSound event s fresh (v, d, l) =
      let n = s.sequence in
      let m = after_time s.previous_market_timestamp in
      let t = event.timestamp in
      let le = stale-lt s.previous_market_timestamp t fresh in
      (
        IsConsistent-mono respect n m s.next_id s.saved.trace s.saved.orders s.saved.fills (suc n)
            (suc t) s.next_id (omega arith) (omega (arith, le)) (omega arith) v,
        IsConsistent-market respect n m s.next_id s.saved.trace s.saved.orders s.saved.fills t le v,
        l,
      )

  pub close_live_bar-IsSound :
      (event : MarketEvent F) (s : Runner F) → IsSound s → IsSound (close_live_bar upper event s)
  unfolding close_live_bar commit update_session_metrics record_live_event mark_price
  close_live_bar-IsSound event s v =
      let (v', d', l') = record_live_event-IsSound EventType.portfolio _ s refl v in (d', d', l')

  -- An order with the next id, in the hours where they count.
  pub note_order-IsSound :
      (o : OrderEvent F) (s : Runner F)
      → o.order_id ≡ s.next_id
      → (respect ≡ true → can_submit_orders o.created_at ≡ true)
      → IsSound s
      → IsSound (note_order o (record s { next_id = suc s.next_id }))
  unfolding note_order persist_live_order record_live_event
  note_order-IsSound o s same hours (v, d, l) =
      let n = s.sequence in
      let m = after_time s.previous_market_timestamp in
      record_live_event-IsSound EventType.order _
        (record s {
          next_id = suc s.next_id;
          draft = record s.draft { orders = o ∷ s.draft.orders };
        })
        refl
        (
          IsConsistent-mono respect n m s.next_id s.saved.trace s.saved.orders s.saved.fills n m
              (suc s.next_id) (omega arith) (omega arith) (omega arith) v,
          IsConsistent-order respect n m s.next_id s.draft.trace s.draft.orders s.draft.fills o same
              hours d,
          l,
        )

  pub book_live_fill-IsSound :
      (laws : IsOrdered F) (f : FillEvent F) (s : Runner F)
      → IsBacked s.draft.orders f
      → num.le f.quantity nought ≡ false
      → IsSound s
      → IsSound (book_live_fill upper f s)
  unfolding book_live_fill persist_live_fill record_live_event
  book_live_fill-IsSound laws f s b positive (v, d, l) =
      let n = s.sequence in
      let m = after_time s.previous_market_timestamp in
      record_live_event-IsSound EventType.fill _
        (record s {
          portfolio = apply_fill upper f s.portfolio;
          draft = record s.draft { fills = f ∷ s.draft.fills };
        })
        refl
        (
          v,
          IsConsistent-fill respect n m s.next_id s.draft.trace s.draft.orders s.draft.fills f b d,
          apply_fill-IsLong upper laws f s.portfolio (above laws f.quantity positive) l,
        )
    where
      above : (laws : IsOrdered F) (q : F) → num.le q nought ≡ false → num.le nought q ≡ true
      above laws q h = elim (laws.le_total q nought) [ inl e ↦ ground arith | inr e ↦ e ]
