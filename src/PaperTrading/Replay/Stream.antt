-- ===== src/PaperTrading/Replay/Stream.antt =====
-- `HistoricalReplayStream` (app/paper_trading/stream.py). A bar's prices are numbers already.
use mercury_trading.Base.{
  ℕ, suc, ◌≡◌, ◌≤◌, ◌∙◌, ap, ◌==◌, keep, refl, Bool, false, Option, none, some, List, [], ◌∷◌, ltb,
  leb, if◌then◌else◌, String, Result, ok, ◌>>=◌, ◌>>◌, raise_if, Bool-cases, inl, inr, arith,
}
use mercury_trading.PaperTrading.Events.{MarketEvent}

pub record MarketBar (F : Type 0) : Type 0 where
  pub timestamp : ℕ
  pub symbol : String
  pub open_price : F
  pub high : F
  pub low : F
  pub close : F
  pub volume : ℕ

-- "historical replay bars must be chronological"
pub data StreamError : Type 0 where
  not_chronological : StreamError

abbrev goes_back : Option ℕ → ℕ → Bool
goes_back none t = false
goes_back (some p) t = ltb t p

-- The least timestamp that may follow.
abbrev floor : Option ℕ → ℕ
floor none = 0
floor (some p) = p

module _ {F : Type 0} (upper : String → String) where
  -- `sorted(bars, key=lambda item: item.timestamp)`, which is stable.
  unfoldable insert_bar : MarketBar F → List (MarketBar F) → List (MarketBar F)
  insert_bar b [] = b ∷ []
  insert_bar b (c ∷ cs) = if leb b.timestamp c.timestamp then b ∷ c ∷ cs else c ∷ insert_bar b cs

  unfoldable sort_bars : List (MarketBar F) → List (MarketBar F)
  unfolding insert_bar
  sort_bars [] = []
  sort_bars (b ∷ bs) = insert_bar b (sort_bars bs)

  abbrev event_of : ℕ → MarketBar F → MarketEvent F
  event_of sequence b = record {
    timestamp = b.timestamp;
    symbol = upper b.symbol;
    open_price = b.open_price;
    high = b.high;
    low = b.low;
    close = b.close;
    volume = b.volume;
    sequence = sequence;
    bid = none;
    ask = none;
    last_price = none;
  }

  -- The loop of `events`, from this sequence number and this previous timestamp on.
  unfoldable events_from :
      ℕ → Option ℕ → List (MarketBar F) → Result StreamError (List (MarketEvent F))
  events_from sequence previous [] = ok []
  events_from sequence previous (b ∷ bs) = do
    raise_if (goes_back previous b.timestamp) not_chronological
    rest ← events_from (suc sequence) (some b.timestamp) bs
    ok (event_of sequence b ∷ rest)

  unfoldable pub stream_events : List (MarketBar F) → Result StreamError (List (MarketEvent F))
  unfolding sort_bars events_from
  stream_events bars = events_from 1 none (sort_bars bars)

  -- The event has what the bar has, with its symbol in upper case and no quote.
  pub record IsEventOf (b : MarketBar F) (e : MarketEvent F) : Type 0 where
    pub same_time : e.timestamp ≡ b.timestamp
    pub same_symbol : e.symbol ≡ upper b.symbol
    pub same_open : e.open_price ≡ b.open_price
    pub same_high : e.high ≡ b.high
    pub same_low : e.low ≡ b.low
    pub same_close : e.close ≡ b.close
    pub same_volume : e.volume ≡ b.volume
    pub no_bid : e.bid ≡ none
    pub no_ask : e.ask ≡ none
    pub no_last : e.last_price ≡ none

  -- Events in the order of time, not before `lo`, numbered from `n` on, one of each of the bars.
  abbrev pub IsStream : ℕ → ℕ → List (MarketBar F) → List (MarketEvent F) → Type 0
  IsStream n lo [] [] = Unit
  IsStream n lo [] (e ∷ es) = ⊥
  IsStream n lo (b ∷ bs) [] = ⊥
  IsStream n lo (b ∷ bs) (e ∷ es) =
      (e.sequence ≡ n) × (lo ≤ e.timestamp) × IsEventOf b e × IsStream (suc n) e.timestamp bs es

  -- The bars of one time, in the order of the list.
  abbrev pub bars_at : ℕ → List (MarketBar F) → List (MarketBar F)
  bars_at t = keep λ b. b.timestamp == t

  abbrev IsSorted : ℕ → List (MarketBar F) → Type 0
  IsSorted lo [] = Unit
  IsSorted lo (b ∷ bs) = (lo ≤ b.timestamp) × IsSorted b.timestamp bs

  insert_bar-IsSorted :
      (lo : ℕ) (b : MarketBar F) (bs : List (MarketBar F))
      → lo ≤ b.timestamp
      → IsSorted lo bs
      → IsSorted lo (insert_bar b bs)
  unfolding insert_bar
  insert_bar-IsSorted lo b [] h s = (h, tt)
  insert_bar-IsSorted lo b (c ∷ cs) h (first, others) =
      elim (Bool-cases (leb b.timestamp c.timestamp)) [
        | inl e ↦ rw e (h, (ground arith, others))
        | inr e ↦ rw e (first, insert_bar-IsSorted c.timestamp b cs (ground arith) others)
      ]

  bars_at-insert_bar :
      (t : ℕ) (b : MarketBar F) (bs : List (MarketBar F))
      → bars_at t (insert_bar b bs) ≡ bars_at t (b ∷ bs)
  unfolding insert_bar
  bars_at-insert_bar t b [] = refl
  bars_at-insert_bar t b (c ∷ cs) = ground (arith, bars_at-insert_bar t b cs)

  sort_bars-IsSorted : (bs : List (MarketBar F)) → IsSorted 0 (sort_bars bs)
  unfolding sort_bars
  sort_bars-IsSorted [] = tt
  sort_bars-IsSorted (b ∷ bs) =
      insert_bar-IsSorted 0 b (sort_bars bs) (omega arith) (sort_bars-IsSorted bs)

  bars_at-sort_bars : (t : ℕ) (bs : List (MarketBar F)) → bars_at t (sort_bars bs) ≡ bars_at t bs
  unfolding sort_bars
  bars_at-sort_bars t [] = refl
  bars_at-sort_bars t (b ∷ bs) =
      bars_at-insert_bar t b (sort_bars bs)
      ∙ ap (λ zs. if b.timestamp == t then b ∷ zs else zs) (bars_at-sort_bars t bs)

  events_from-IsStream :
      (n : ℕ) (previous : Option ℕ) (bs : List (MarketBar F))
      → IsSorted (floor previous) bs
      → (es : List (MarketEvent F)) × (events_from n previous bs ≡ ok es)
        × IsStream n (floor previous) bs es
  unfolding events_from
  events_from-IsStream n previous [] s = ([], refl, tt)
  events_from-IsStream n previous (b ∷ bs) (first, others) =
      let (es, same, stream) = events_from-IsStream (suc n) (some b.timestamp) bs others in
      let onward = forward previous b.timestamp first in
      let exact : IsEventOf b (event_of n b) = record {
        same_time = refl;
        same_symbol = refl;
        same_open = refl;
        same_high = refl;
        same_low = refl;
        same_close = refl;
        same_volume = refl;
        no_bid = refl;
        no_ask = refl;
        no_last = refl;
      } in
      (event_of n b ∷ es, rw (onward, same), (refl, first, exact, stream))
    where
      forward : (p : Option ℕ) (t : ℕ) → floor p ≤ t → goes_back p t ≡ false
      forward none t h = refl
      forward (some p) t h = ground arith

  -- The stream of any bars does not raise. It gives the events of the same bars, put in the order
  -- of time, with bars of one time in their given order: one event for each bar, with its time,
  -- prices and volume, its symbol in upper case and no quote, numbered from 1 on.
  pub stream_events-IsStream :
      (bars : List (MarketBar F))
      → (es : List (MarketEvent F)) × (stream_events bars ≡ ok es)
        × ((sorted : List (MarketBar F)) × ((t : ℕ) → bars_at t sorted ≡ bars_at t bars)
            × IsStream 1 0 sorted es)
  unfolding stream_events
  stream_events-IsStream bars =
      let (es, same, stream) =
        events_from-IsStream 1 none (sort_bars bars) (sort_bars-IsSorted bars) in
      (es, same, (sort_bars bars, (λ t. bars_at-sort_bars t bars), stream))
