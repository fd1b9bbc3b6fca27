-- ===== src/StrategyDsl/Causality.antt =====
-- Positions do not look ahead (app/strategy_dsl/compiler.py).
use mercury_trading.Base.{
  ℕ, zero, suc, ◌≡◌, refl, ap, Bool, some, List, [], ◌∷◌, map, length, ltb, String, str_eq, ok,
  raise_if, >>=-eq-ok, Bool-cases, inl, inr,
}
use mercury_trading.PaperTrading.Number.{Number}
use mercury_trading.StrategyDsl.Syntax.{
  Connective, all_of, any_of, Condition, comparison, logical, Conditions, nil, cons, StrategySpec,
}
use mercury_trading.StrategyDsl.Validation.{too_many_bars, validate_strategy}
use mercury_trading.StrategyDsl.Evaluation.{
  Column, FrameLibrary, by_rows, with_column, column, with_indicators, join, condition_column,
  joined_column, allowed_column, position_column, evaluate_positions,
}

-- Two lists of one length, with the same first `n` elements.
abbrev pub Agree : {A : Type 0} → ℕ → List A → List A → Type 0
Agree n [] [] = Unit
Agree n [] (y ∷ ys) = ⊥
Agree n (x ∷ xs) [] = ⊥
Agree zero (x ∷ xs) (y ∷ ys) = Agree zero xs ys
Agree (suc n) (x ∷ xs) (y ∷ ys) = (x ≡ y) × Agree n xs ys

-- The first `n` rows of the result depend on the first `n` rows of the column.
abbrev pub IsCausal : {A B : Type 0} → (List A → List B) → Type 0
IsCausal {A} f = (n : ℕ) (xs ys : List A) → Agree n xs ys → Agree n (f xs) (f ys)

-- And for this one the first `n + 1` rows do.
abbrev pub IsDelayed : {A B : Type 0} → (List A → List B) → Type 0
IsDelayed {A} f = (n : ℕ) (xs ys : List A) → Agree n xs ys → Agree (suc n) (f xs) (f ys)

-- What is documented of the library: the rolling mean and the forward fill of a row read that row and the
-- rows before it, and `shift(1)` moves each row down by one.
pub record IsChronological {F : Type 0} (lib : FrameLibrary F) : Type 0 where
  pub rolling_mean_causal : (window : ℕ) → IsCausal (lib.rolling_mean window)
  pub forward_fill_causal : IsCausal lib.forward_fill
  pub shift_delayed : IsDelayed lib.shift

pub map-IsCausal : {A B : Type 0} (f : A → B) → IsCausal (map f)
map-IsCausal f n [] [] h = tt
map-IsCausal f n [] (y ∷ ys) h = h
map-IsCausal f n (x ∷ xs) [] h = h
map-IsCausal f zero (x ∷ xs) (y ∷ ys) h = map-IsCausal f zero xs ys h
map-IsCausal f (suc n) (x ∷ xs) (y ∷ ys) (e, h) = (ap f e, map-IsCausal f n xs ys h)

by_rows-Agree :
    {A B C : Type 0} (f : A → B → C) (n : ℕ) (xs xs' : List A) (ys ys' : List B)
    → Agree n xs xs'
    → Agree n ys ys'
    → Agree n (by_rows f xs ys) (by_rows f xs' ys')
unfolding by_rows
by_rows-Agree f n [] [] ys ys' h k = tt
by_rows-Agree f n [] (x' ∷ xs') ys ys' h k = elim h [ ]
by_rows-Agree f n (x ∷ xs) [] ys ys' h k = elim h [ ]
by_rows-Agree f n (x ∷ xs) (x' ∷ xs') [] [] h k = tt
by_rows-Agree f n (x ∷ xs) (x' ∷ xs') [] (y' ∷ ys') h k = elim k [ ]
by_rows-Agree f n (x ∷ xs) (x' ∷ xs') (y ∷ ys) [] h k = elim k [ ]
by_rows-Agree f zero (x ∷ xs) (x' ∷ xs') (y ∷ ys) (y' ∷ ys') h k =
    by_rows-Agree f zero xs xs' ys ys' h k
by_rows-Agree f (suc n) (x ∷ xs) (x' ∷ xs') (y ∷ ys) (y' ∷ ys') (e, h) (d, k) =
    (cc, by_rows-Agree f n xs xs' ys ys' h k)

module _ {F : Type 0} where
  -- Frames with the same names and columns that agree.
  abbrev FrameAgree : ℕ → List (String × Column F) → List (String × Column F) → Type 0
  FrameAgree n [] [] = Unit
  FrameAgree n [] (d ∷ ds) = ⊥
  FrameAgree n (c ∷ cs) [] = ⊥
  FrameAgree n (c ∷ cs) (d ∷ ds) = (c.0 ≡ d.0) × Agree n c.1 d.1 × FrameAgree n cs ds

  column-Agree :
      (n : ℕ) (name : String) (fs gs : List (String × Column F))
      → FrameAgree n fs gs
      → Agree n (column name fs) (column name gs)
  unfolding column
  column-Agree n name [] [] h = tt
  column-Agree n name [] (g ∷ gs) h = elim h [ ]
  column-Agree n name (f ∷ fs) [] h = elim h [ ]
  column-Agree n name ((k, c) ∷ fs) ((k', d) ∷ gs) (same, agree, others) =
      elim (Bool-cases (str_eq k name)) [
        | inl at ↦ rw (← same, at) agree
        | inr off ↦ rw (← same, off) (column-Agree n name fs gs others)
      ]

  with_column-Agree :
      (n : ℕ) (name : String) (c d : Column F) (fs gs : List (String × Column F))
      → Agree n c d
      → FrameAgree n fs gs
      → FrameAgree n (with_column name c fs) (with_column name d gs)
  unfolding with_column
  with_column-Agree n name c d [] [] h k = (refl, h, tt)
  with_column-Agree n name c d [] (g ∷ gs) h k = elim k [ ]
  with_column-Agree n name c d (f ∷ fs) [] h k = elim k [ ]
  with_column-Agree n name c d ((j, x) ∷ fs) ((j', y) ∷ gs) h (same, agree, others) =
      elim (Bool-cases (str_eq j name)) [
        | inl at ↦ rw (← same, at) (refl, h, others)
        | inr off ↦ rw (← same, off) (refl, agree, with_column-Agree n name c d fs gs h others)
      ]

  module _ (lib : FrameLibrary F) (chronological : IsChronological lib) where
    with_indicators-Agree :
        (n : ℕ) (is : List (String × ℕ)) (fs gs : List (String × Column F))
        → FrameAgree n fs gs
        → FrameAgree n (with_indicators lib is fs) (with_indicators lib is gs)
    unfolding with_indicators
    with_indicators-Agree n [] fs gs h = h
    with_indicators-Agree n ((name, window) ∷ is) fs gs h = with_indicators-Agree n is _ _ (
        with_column-Agree n name _ _ fs gs
          (chronological.rolling_mean_causal window n _ _ (column-Agree n "close" fs gs h)) h)

  module _ (lib : FrameLibrary F) where
    join-Agree :
        (k : Connective) (n : ℕ) (xs xs' ys ys' : Column Bool)
        → Agree n xs xs'
        → Agree n ys ys'
        → Agree n (join lib k xs ys) (join lib k xs' ys')
    join-Agree all_of n xs xs' ys ys' h k = by_rows-Agree lib.both n xs xs' ys ys' h k
    join-Agree any_of n xs xs' ys ys' h k = by_rows-Agree lib.either n xs xs' ys ys' h k

    module _ (n : ℕ) (fs gs : List (String × Column F)) (same : FrameAgree n fs gs) where
      mutual
        unfolding condition_column

        condition_column-Agree :
            (c : Condition) → Agree n (condition_column lib c fs) (condition_column lib c gs)
        condition_column-Agree (comparison l op r) =
            by_rows-Agree (lib.compare_cells op) n _ _ _ _ (column-Agree n l fs gs same)
              (column-Agree n r fs gs same)
        condition_column-Agree (logical k nil) = tt
        condition_column-Agree (logical k (cons c cs)) =
            joined_column-Agree k cs _ _ (condition_column-Agree c)

        joined_column-Agree :
            (k : Connective) (cs : Conditions) (xs ys : Column Bool)
            → Agree n xs ys
            → Agree n (joined_column lib k cs fs xs) (joined_column lib k cs gs ys)
        joined_column-Agree k nil xs ys h = h
        joined_column-Agree k (cons c cs) xs ys h =
            joined_column-Agree k cs _ _ (join-Agree k n _ _ _ _ h (condition_column-Agree c))

      allowed_column-Agree :
          (cs : List Condition) (xs ys : Column Bool)
          → Agree n xs ys
          → Agree n (allowed_column lib cs fs xs) (allowed_column lib cs gs ys)
      unfolding allowed_column
      allowed_column-Agree [] xs ys h = h
      allowed_column-Agree (c ∷ cs) xs ys h =
          allowed_column-Agree cs _ _
            (by_rows-Agree lib.both n _ _ _ _ h (condition_column-Agree c))

  module _ ⦃num : Number F⦄ (lib : FrameLibrary F) (chronological : IsChronological lib) where
    position_column-Agree :
        (s : StrategySpec F) (n : ℕ) (fs gs : List (String × Column F))
        → FrameAgree n fs gs
        → Agree (suc n) (position_column lib s fs) (position_column lib s gs)
    unfolding position_column
    position_column-Agree s n fs gs h = map-IsCausal _ (suc n) _ _ (
        chronological.shift_delayed n _ _ (
          map-IsCausal _ n _ _ (
            chronological.forward_fill_causal n _ _ (
              by_rows-Agree _ n _ _ _ _
                (by_rows-Agree lib.both n _ _ _ _ (condition_column-Agree lib n fs gs h s.entry) (
                  allowed_column-Agree lib n fs gs h s.filters _ _
                    (map-IsCausal _ n _ _ (column-Agree n "close" fs gs h))))
                (condition_column-Agree lib n fs gs h s.exit)))))

    evaluate_positions-ok :
        (s : StrategySpec F) (xs ps : List _)
        → evaluate_positions lib s xs ≡ ok ps
        → ps
          ≡ position_column lib s (with_indicators lib s.indicators (("close", map some xs) ∷ []))
    unfolding evaluate_positions
    evaluate_positions-ok s xs ps runs =
        let (valid, _, rest) = >>=-eq-ok (validate_strategy s) _ runs in
        let (_, _, returns) =
          >>=-eq-ok
            (raise_if (ltb s.risk_constraints.max_bars_processed (length xs)) (too_many_bars ∷ []))
            _ rest in
        cc

    -- For a data-frame library whose rolling mean and forward fill read no later row and whose
    -- shift moves rows down by one: if two series of closes agree on their first n bars and both
    -- evaluate, the positions agree on the first n + 1 bars, so that no position reads its own bar
    -- or a later one.
    pub no_lookahead :
        (s : StrategySpec F) (n : ℕ) (xs ys ps qs : List F)
        → Agree n xs ys
        → evaluate_positions lib s xs ≡ ok ps
        → evaluate_positions lib s ys ≡ ok qs
        → Agree (suc n) ps qs
    no_lookahead s n xs ys ps qs same runs runs' =
        rw (evaluate_positions-ok s xs ps runs, evaluate_positions-ok s ys qs runs')
          (position_column-Agree s n _ _ (
            with_indicators-Agree lib chronological n s.indicators _ _
              (refl, map-IsCausal some n xs ys same, tt)))
