-- ===== src/PaperTrading/Portfolio/Holdings.antt =====
-- What a fill does to the holdings (app/paper_trading/portfolio.py).
use mercury_trading.Base.{
  ◌≡◌, ◌≢◌, refl, true, some, List, [], ◌∷◌, arith, String, str_eq, eq_iff, if◌then◌else◌, All, inl,
  inr, Bool-cases, Option-cases, subst,
}
use mercury_trading.PaperTrading.Number.{Number, IsOrdered, nought}
use mercury_trading.PaperTrading.Events.{FillEvent, is_buy}
use mercury_trading.PaperTrading.Portfolio.Defs.{
  lookup, insert, Position, Portfolio, position_of, buy_into, sell_from, sold_quantity, apply_buy,
  apply_sell, apply_fill,
}

module _ {V : Type 0} where
  lookup-insert :
      (key asked : String) (value : V) (d : List (String × V))
      → lookup asked (insert key value d)
        ≡ (if str_eq key asked then some value else lookup asked d)
  unfolding insert lookup
  lookup-insert key asked value [] = refl
  lookup-insert key asked value ((k, old) ∷ d) =
      ground
        (arith, lookup-insert key asked value d, eq_iff k key, eq_iff k asked, eq_iff key asked)

  All-insert :
      (P : V → Type 0) (k : String) (v : V) (d : List (String × V))
      → All (λ e. P e.1) d
      → P v
      → All (λ e. P e.1) (insert k v d)
  unfolding insert
  All-insert P k v [] a p = (p, tt)
  All-insert P k v ((j, w) ∷ d) a p = elim (Bool-cases (str_eq j k)) [
    | inl e ↦ rw e (p, a.1)
    | inr e ↦ rw e (a.0, All-insert P k v d a.1 p)
  ]

  All-lookup :
      (P : V → Type 0) (k : String) (v : V) (d : List (String × V))
      → All (λ e. P e.1) d
      → lookup k d ≡ some v
      → P v
  unfolding lookup
  All-lookup P k v [] a e = absurd (ground arith)
  All-lookup P k v ((j, w) ∷ d) a e = elim (Bool-cases (str_eq j k)) [
    | inl at ↦ let same : w ≡ v = ground arith in subst P same a.0
    | inr off ↦ All-lookup P k v d a.1 (ground arith)
  ]

module _ {F : Type 0} ⦃num : Number F⦄ (upper : String → String) where
  -- No position is short.
  abbrev pub IsLong : Portfolio F → Type 0
  IsLong p = All (λ e. num.le nought e.1.quantity ≡ true) p.positions

  -- A fill leaves the position of every symbol other than its own as it was.
  pub position_of-apply_fill_ne :
      (fill : FillEvent F) (p : Portfolio F) (symbol : String)
      → symbol ≢ upper fill.symbol
      → position_of upper (apply_fill upper fill p) symbol ≡ position_of upper p symbol
  unfolding apply_buy apply_sell apply_fill position_of
  position_of-apply_fill_ne fill p symbol ne = ground (
    arith,
    eq_iff (upper fill.symbol) symbol,
    lookup-insert (upper fill.symbol) symbol
        (buy_into upper fill (position_of upper p (upper fill.symbol))) p.positions,
    lookup-insert (upper fill.symbol) symbol
        (sell_from upper fill (position_of upper p (upper fill.symbol))) p.positions,
  )

  module _ (laws : IsOrdered F) where
    open laws use {le_refl, le_trans, lt-eq-not-le, le_total, add_nonneg, sub_nonneg}

    abbrev IsHeld : Position F → Type 0
    IsHeld q = num.le nought q.quantity ≡ true

    position_of-IsHeld :
        (p : Portfolio F) (symbol : String) → IsLong p → IsHeld (position_of upper p symbol)
    unfolding position_of
    position_of-IsHeld p symbol long = elim (Option-cases (lookup symbol p.positions)) [
      | inl e ↦ rw e (le_refl nought)
      | inr (q, e) ↦ rw e (All-lookup IsHeld symbol q p.positions long e)
    ]

    buy_into-IsHeld :
        (fill : FillEvent F) (q : Position F)
        → num.le nought fill.quantity ≡ true
        → IsHeld q
        → IsHeld (buy_into upper fill q)
    unfolding buy_into
    buy_into-IsHeld fill q h k = add_nonneg q.quantity fill.quantity k h

    sold-le-held :
        (fill : FillEvent F) (q : Position F)
        → num.le (sold_quantity upper fill q) q.quantity ≡ true
    unfolding sold_quantity
    sold-le-held fill q = ground (arith, lt-eq-not-le q.quantity fill.quantity, le_refl q.quantity)

    sell_from-IsHeld : (fill : FillEvent F) (q : Position F) → IsHeld (sell_from upper fill q)
    unfolding sell_from
    sell_from-IsHeld fill q = ground (
      arith,
      le_refl nought,
      sub_nonneg (sold_quantity upper fill q) q.quantity (sold-le-held fill q),
    )

    -- For ordered numbers, a fill of no negative quantity applied to a portfolio with no short
    -- position leaves no short position.
    pub apply_fill-IsLong :
        (fill : FillEvent F) (p : Portfolio F)
        → num.le nought fill.quantity ≡ true
        → IsLong p
        → IsLong (apply_fill upper fill p)
    unfolding apply_fill apply_buy apply_sell
    apply_fill-IsLong fill p h long =
        let symbol = upper fill.symbol in
        let q = position_of upper p symbol in
        let held = position_of-IsHeld p symbol long in
        elim (Bool-cases (is_buy fill.side)) [
          | inl e ↦ rw e (
              All-insert IsHeld symbol (buy_into upper fill q) p.positions long
                (buy_into-IsHeld fill q h held))
          | inr e ↦ rw e (
              All-insert IsHeld symbol (sell_from upper fill q) p.positions long
                (sell_from-IsHeld fill q))
        ]
