-- ===== src/StrategyDsl/Evaluation.antt =====
-- `evaluate_positions` (app/strategy_dsl/compiler.py) over the columns of a data frame, whose library is a
-- parameter.
use mercury_trading.Base.{
  ℕ, Bool, true, false, Option, none, some, List, [], ◌∷◌, map, length, ltb, String, str_eq,
  if◌then◌else◌, Result, ok, ◌>>=◌, ◌>>◌, raise_if,
}
use mercury_trading.PaperTrading.Number.{Number, nought}
use mercury_trading.StrategyDsl.Syntax.{
  Operator, Connective, all_of, any_of, Condition, comparison, logical, Conditions, nil, cons,
  StrategySpec,
}
use mercury_trading.StrategyDsl.Validation.{StrategyError, too_many_bars, validate_strategy}

-- A column, with its nulls.
abbrev pub Column : Type 0 → Type 0
Column A = List (Option A)

-- What the code calls of the data-frame library: the rolling mean, the comparisons and the connectives of
-- two cells, `forward_fill` and `shift(1)`.
pub record FrameLibrary (F : Type 0) : Type 0 where
  pub rolling_mean : ℕ → Column F → Column F
  pub compare_cells : Operator → Option F → Option F → Option Bool
  pub both : Option Bool → Option Bool → Option Bool
  pub either : Option Bool → Option Bool → Option Bool
  pub forward_fill : Column F → Column F
  pub shift : Column F → Column F

module _ {A B C : Type 0} where
  -- An operation on the cells of two columns, row by row.
  unfoldable pub by_rows : (A → B → C) → List A → List B → List C
  by_rows f [] bs = []
  by_rows f (a ∷ as') [] = []
  by_rows f (a ∷ as') (b ∷ bs) = f a b ∷ by_rows f as' bs

-- `fill_null(False)` and `fill_null(0.0)` of a cell
abbrev pub or_default {ℓ} : {A : Type ℓ} → A → Option A → A
or_default d none = d
or_default d (some a) = a

module _ {F : Type 0} where
  -- `with_columns(….alias(name))`
  unfoldable pub with_column :
      String → Column F → List (String × Column F) → List (String × Column F)
  with_column name c [] = (name, c) ∷ []
  with_column name c ((k, d) ∷ frame) =
      if str_eq k name then (k, c) ∷ frame else (k, d) ∷ with_column name c frame

  -- `pl.col(name)`; a validated strategy names columns that exist.
  unfoldable pub column : String → List (String × Column F) → Column F
  column name [] = []
  column name ((k, d) ∷ frame) = if str_eq k name then d else column name frame

  module _ (lib : FrameLibrary F) where
    -- The loop over the indicators: each reads the column "close" of the frame that it extends.
    unfoldable pub with_indicators :
        List (String × ℕ) → List (String × Column F) → List (String × Column F)
    unfolding with_column column
    with_indicators [] frame = frame
    with_indicators ((name, window) ∷ is) frame =
        with_indicators is (with_column name (lib.rolling_mean window (column "close" frame)) frame)

    abbrev pub join : Connective → Column Bool → Column Bool → Column Bool
    join all_of = by_rows lib.both
    join any_of = by_rows lib.either

    -- `_condition_expression`; a list of conditions is joined from the left, and is not empty.
    unfoldable mutual
      pub condition_column : Condition → List (String × Column F) → Column Bool
      condition_column (comparison l op r) frame =
          by_rows (lib.compare_cells op) (column l frame) (column r frame)
      condition_column (logical k nil) frame = []
      condition_column (logical k (cons c cs)) frame =
          joined_column k cs frame (condition_column c frame)

      pub joined_column :
          Connective → Conditions → List (String × Column F) → Column Bool → Column Bool
      joined_column k nil frame so_far = so_far
      joined_column k (cons c cs) frame so_far =
          joined_column k cs frame (join k so_far (condition_column c frame))

    unfoldable pub allowed_column :
        List Condition → List (String × Column F) → Column Bool → Column Bool
    unfolding condition_column
    allowed_column [] frame so_far = so_far
    allowed_column (c ∷ cs) frame so_far =
        allowed_column cs frame (by_rows lib.both so_far (condition_column c frame))

    module _ ⦃num : Number F⦄ where
      -- `when(entry & allowed).then(size).when(exit).then(0.0).otherwise(None)`
      abbrev pub signal_cell : F → Option Bool → Option Bool → Option F
      signal_cell size enters leaves =
          if or_default false enters
          then some size
          else if or_default false leaves
          then some nought
          else none

      unfoldable pub position_column : StrategySpec F → List (String × Column F) → List F
      unfolding allowed_column
      position_column s frame =
          let always = map (λ cell. some true) (column "close" frame) in
          let allowed = allowed_column s.filters frame always in
          let enters = by_rows lib.both (condition_column s.entry frame) allowed in
          let signals =
            by_rows (signal_cell s.position_size) enters (condition_column s.exit frame) in
          let held = map (λ cell. some (or_default nought cell)) (lib.forward_fill signals) in
          map (or_default nought) (lib.shift held)

      -- The positions for the closes of the bars.
      unfoldable pub evaluate_positions :
          StrategySpec F → List F → Result (List StrategyError) (List F)
      unfolding with_indicators position_column
      evaluate_positions s closes = do
        valid ← validate_strategy s
        raise_if (ltb s.risk_constraints.max_bars_processed (length closes)) (too_many_bars ∷ [])
        ok (position_column s (with_indicators s.indicators (("close", map some closes) ∷ [])))
