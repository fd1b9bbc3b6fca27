-- ===== src/StrategyDsl/Compiler.antt =====
-- The execution plan and the explanation of a strategy (app/strategy_dsl/compiler.py). The hash of the
-- canonical JSON and the formatting of numbers are parameters.
use mercury_trading.Base.{
  ℕ, Bool, true, false, List, [], ◌∷◌, ◌++◌, map, String, if◌then◌else◌, Result, ok, ◌>>=◌,
}
use Prim.Native.Nat.{Ordering}
use Prim.Native.String.{◌++◌ as str_append, compare as str_compare}
use mercury_trading.StrategyDsl.Syntax.{
  Operator, gt, gte, lt, lte, Connective, all_of, any_of, Condition, comparison, logical,
  Conditions, nil, cons, StrategySpec,
}
use mercury_trading.StrategyDsl.Validation.{StrategyError, complexity_score, validate_strategy}

-- `str(n)`, `f"{x:.2%}"`, `f"{x:.0%}"` and the hash of the canonical JSON.
pub record Rendering (F : Type 0) : Type 0 where
  pub integer : ℕ → String
  pub percent_2 : F → String
  pub percent_0 : F → String
  pub hash : StrategySpec F → String

pub record ExecutionPlan : Type 0 where
  pub compiler_version : String
  pub strategy_hash : String
  pub complexity : ℕ
  pub steps : List String

abbrev pub concat : List String → String
concat [] = ""
concat (t ∷ ts) = str_append t (concat ts)

-- `sorted(spec.indicators.items())`; the names of a dict are distinct.
abbrev not_after : String → String → Bool
not_after a b = elim (str_compare a b) [ Ordering.gt ↦ false | _ ↦ true ]

unfoldable pub insert_item : String × ℕ → List (String × ℕ) → List (String × ℕ)
insert_item i [] = i ∷ []
insert_item i (j ∷ is) = if not_after i.0 j.0 then i ∷ j ∷ is else j ∷ insert_item i is

unfoldable pub sorted_items : List (String × ℕ) → List (String × ℕ)
unfolding insert_item
sorted_items [] = []
sorted_items (i ∷ is) = insert_item i (sorted_items is)

abbrev pub symbol_of : Operator → String
symbol_of gt = ">"
symbol_of gte = ">="
symbol_of lt = "<"
symbol_of lte = "<="

abbrev pub joiner : Connective → String
joiner all_of = " and "
joiner any_of = " or "

-- `_describe_condition`, and the rest of a joined list.
unfoldable mutual
  pub describe_condition : Condition → String
  describe_condition (comparison l op r) = concat (l ∷ " " ∷ symbol_of op ∷ " " ∷ r ∷ [])
  describe_condition (logical k nil) = "()"
  describe_condition (logical k (cons c cs)) =
      concat ("(" ∷ describe_condition c ∷ describe_rest (joiner k) cs ∷ ")" ∷ [])

  pub describe_rest : String → Conditions → String
  describe_rest j nil = ""
  describe_rest j (cons c cs) = concat (j ∷ describe_condition c ∷ describe_rest j cs ∷ [])

-- `", ".join(…)`
abbrev pub comma_separated : List String → String
comma_separated [] = ""
comma_separated (t ∷ ts) = concat (t ∷ map (str_append ", ") ts)

module _ {F : Type 0} (render : Rendering F) where
  unfoldable pub indicator_step : String × ℕ → String
  indicator_step (name, window) =
      concat ("compute " ∷ name ∷ "=SMA(close," ∷ render.integer window ∷ ")" ∷ [])

  unfoldable pub compile_strategy : StrategySpec F → Result (List StrategyError) ExecutionPlan
  unfolding sorted_items describe_condition indicator_step
  compile_strategy s = do
    valid ← validate_strategy s
    ok record {
      compiler_version = "strategy-dsl-compiler-v1";
      strategy_hash = render.hash s;
      complexity = complexity_score s;
      steps =
          map indicator_step (sorted_items s.indicators)
          ++ (str_append "evaluate entry: " (describe_condition s.entry)
              ∷ str_append "evaluate exit: " (describe_condition s.exit)
              ∷ concat ("position size: " ∷ render.percent_2 s.position_size ∷ " equity" ∷ [])
              ∷ "execute on next bar open"
              ∷ []);
    }

  unfoldable pub explain_strategy : StrategySpec F → Result (List StrategyError) String
  unfolding compile_strategy
  explain_strategy s = do
    plan ← compile_strategy s
    let indicator_lines = comma_separated (
        map (λ i. concat (i.0 ∷ ": " ∷ render.integer i.1 ∷ "-bar SMA" ∷ []))
          (sorted_items s.indicators))
    ok (
        concat (
          "Momentum strategy using "
          ∷ indicator_lines
          ∷ ". Enter when "
          ∷ describe_condition s.entry
          ∷ ". Exit when "
          ∷ describe_condition s.exit
          ∷ ". Use "
          ∷ render.percent_0 s.position_size
          ∷ " of equity. Complexity "
          ∷ render.integer plan.complexity
          ∷ "; hash "
          ∷ plan.strategy_hash
          ∷ "."
          ∷ []))
