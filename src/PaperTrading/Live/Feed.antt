-- ===== src/PaperTrading/Live/Feed.antt =====
-- `StaticLiveMarketDataProvider` (app/market_data/live.py), a feed that may break once.
use mathlib.Core.List.{append-nil, append_assoc}
use mercury_trading.Base.{
  ℕ, zero, suc, ◌≡◌, ◌≤◌, refl, sym, subst, ap, ◌∙◌, Bool, true, false, not, ◌&&◌, Option, none,
  some, List, [], ◌∷◌, ◌++◌, keep, drop, length, length-append, ltb, if◌then◌else◌, arith,
  Bool-cases, inl, inr,
}

-- What a stream gives, whether it raised, and the fields of the provider after it.
pub record Streamed (B : Type 0) : Type 0 where
  pub bars : List B
  pub disconnected : Bool
  pub offset : ℕ
  pub failed_once : Bool

-- `fail_after is not None and index > fail_after`
abbrev is_past : Option ℕ → ℕ → Bool
is_past none index = false
is_past (some limit) index = ltb limit index

module _ {B : Type 0} (fail_after : Option ℕ) (fits : B → Bool) where
  abbrev also : B → Streamed B → Streamed B
  also bar s = record s { bars = bar ∷ s.bars }

  -- The loop of `stream_bars` from an index on; `fits` tests the symbol and the interval.
  unfoldable pub static_from : List B → ℕ → ℕ → Bool → Streamed B
  static_from [] index offset failed_once = record {
    bars = [];
    disconnected = false;
    offset = offset;
    failed_once = failed_once;
  }
  static_from (bar ∷ bars) index offset failed_once =
      let given = static_from bars (suc index) index failed_once in
      let skipped = static_from bars (suc index) offset failed_once in
      if is_past fail_after index && not failed_once
      then record { bars = []; disconnected = true; offset = offset; failed_once = true }
      else if fits bar
      then also bar given
      else skipped

  -- `stream_bars` without a stop: the bars after the offset.
  unfoldable pub static_stream : List B → ℕ → Bool → Streamed B
  unfolding static_from
  static_stream bars offset failed_once =
      static_from (drop offset bars) (suc offset) offset failed_once

  once_failed :
      (bars : List B) (index offset : ℕ)
      → (static_from bars index offset true).bars ≡ keep fits bars
  unfolding static_from
  once_failed [] index offset = refl
  once_failed (bar ∷ bars) index offset =
      ground (arith, once_failed bars (suc index) index, once_failed bars (suc index) offset)

  nothing_fits :
      (bars : List B) (index offset : ℕ) (f : Bool)
      → keep fits bars ≡ []
      → (static_from bars index offset f).bars ≡ []
  unfolding static_from
  nothing_fits [] index offset f h = refl
  nothing_fits (bar ∷ bars) index offset f h =
      ground (arith, nothing_fits bars (suc index) offset f)

  keep-append : (xs ys : List B) → keep fits (xs ++ ys) ≡ keep fits xs ++ keep fits ys
  keep-append [] ys = refl
  keep-append (x ∷ xs) ys = ground (arith, keep-append xs ys)

drop-append :
    {B : Type 0} (n : ℕ) (xs ys : List B) → n ≤ length xs → drop n (xs ++ ys) ≡ drop n xs ++ ys
drop-append zero xs ys h = refl
drop-append (suc n) [] ys h = absurd (omega (arith, h))
drop-append (suc n) (x ∷ xs) ys h = drop-append n xs ys (omega (arith, h))

drop-all : {B : Type 0} (xs : List B) → drop (length xs) xs ≡ []
drop-all [] = refl
drop-all (x ∷ xs) = drop-all xs

module _ {B : Type 0} (fail_after : Option ℕ) (fits : B → Bool) where
  -- The bars before an index, where nothing fits after the offset, and the bars from there on.
  record IsMiddle (before rest all : List B) (n offset : ℕ) : Type 0 where
    counted : length before ≡ n
    whole : before ++ rest ≡ all
    passed : offset ≤ n
    gone : keep fits (drop offset before) ≡ []

  IsMiddle-given :
      (before rest all : List B) (bar : B) (n offset : ℕ)
      → IsMiddle before (bar ∷ rest) all n offset
      → IsMiddle (before ++ (bar ∷ [])) rest all (suc n) (suc n)
  IsMiddle-given before rest all bar n offset m =
      let longer : length (before ++ (bar ∷ [])) ≡ suc n =
        omega (arith, length-append before (bar ∷ []), m.counted) in
      record {
        counted = longer;
        whole = append_assoc before (bar ∷ []) rest ∙ m.whole;
        passed = omega arith;
        gone =
            ap (λ k. keep fits (drop k (before ++ (bar ∷ [])))) (sym longer)
            ∙ ap (keep fits) (drop-all (before ++ (bar ∷ [])));
      }

  IsMiddle-skipped :
      (before rest all : List B) (bar : B) (n offset : ℕ)
      → fits bar ≡ false
      → IsMiddle before (bar ∷ rest) all n offset
      → IsMiddle (before ++ (bar ∷ [])) rest all (suc n) offset
  IsMiddle-skipped before rest all bar n offset unfit m = record {
    counted = omega (arith, length-append before (bar ∷ []), m.counted);
    whole = append_assoc before (bar ∷ []) rest ∙ m.whole;
    passed = omega (arith, m.passed);
    gone =
        ap (keep fits) (drop-append offset before (bar ∷ []) (omega (arith, m.passed, m.counted)))
        ∙ (keep-append fail_after fits (drop offset before) (bar ∷ []) ∙ rw (m.gone, unfit) refl);
  }

  -- The two streams from the middle of the first one, whose last bar given was at the offset.
  rest_given :
      (before rest all : List B) (n offset : ℕ)
      → IsMiddle before rest all n offset
      → (let s = static_from fail_after fits rest (suc n) offset false in
          s.bars ++ (static_stream fail_after fits all s.offset s.failed_once).bars)
        ≡ keep fits rest
  unfolding static_from static_stream
  rest_given before [] all n offset m =
      let same : before ≡ all = sym (append-nil before) ∙ m.whole in
      nothing_fits fail_after fits (drop offset all) (suc offset) offset false
        (subst (λ xs. keep fits (drop offset xs) ≡ []) same m.gone)
  rest_given before (bar ∷ rest) all n offset m =
      elim (Bool-cases (is_past fail_after (suc n) && true)) [
        | inl past ↦ rw past (
            once_failed fail_after fits (drop offset all) (suc offset) offset
            ∙ (ap (λ xs. keep fits (drop offset xs)) (sym m.whole)
                ∙ (ap (keep fits)
                      (drop-append offset before (bar ∷ rest) (omega (arith, m.passed, m.counted)))
                    ∙ (keep-append fail_after fits (drop offset before) (bar ∷ rest)
                        ∙ rw m.gone refl))))
        | inr there ↦ elim (Bool-cases (fits bar)) [
          | inl fit ↦
              rw (there, fit)
                (ap (λ xs. bar ∷ xs)
                  (rest_given (before ++ (bar ∷ [])) rest all (suc n) (suc n)
                    (IsMiddle-given before rest all bar n offset m)))
          | inr unfit ↦
              rw (there, unfit)
                (rest_given (before ++ (bar ∷ [])) rest all (suc n) offset
                  (IsMiddle-skipped before rest all bar n offset unfit m))
        ]
      ]

  -- Whether or where the feed breaks, its first stream from the start and the one after it give
  -- together the bars that fit, each once and in their order.
  pub static_stream-resumes :
      (all : List B)
      → (let s = static_stream fail_after fits all 0 false in
          s.bars ++ (static_stream fail_after fits all s.offset s.failed_once).bars)
        ≡ keep fits all
  unfolding static_stream
  static_stream-resumes all =
      rest_given [] all all 0 0
        (record { counted = refl; whole = refl; passed = omega arith; gone = refl })
