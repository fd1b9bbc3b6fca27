-- ===== src/StrategyDsl/Service.antt =====
-- `StrategyService.create` (app/strategy_dsl/service.py): the table of accepted strategies.
use mercury_trading.Base.{
  ℕ, Bool, Option, none, some, List, [], ◌∷◌, ◌++◌, find, String, str_eq, Result, ok, ◌>>=◌,
}
use mercury_trading.StrategyDsl.Syntax.{StrategySpec}
use mercury_trading.StrategyDsl.Validation.{StrategyError, validate_strategy}
use mercury_trading.StrategyDsl.Compiler.{
  Rendering, ExecutionPlan, compile_strategy, explain_strategy,
}

pub record StrategyRecord (F : Type 0) : Type 0 where
  pub strategy_hash : String
  pub compiler_version : String
  pub spec : StrategySpec F
  pub complexity : ℕ
  pub explanation : String

module _ {F : Type 0} (render : Rendering F) where
  abbrev pub has_hash : String → StrategyRecord F → Bool
  has_hash h r = str_eq r.strategy_hash h

  abbrev pub return_or_add :
      StrategySpec F
      → ExecutionPlan
      → List (StrategyRecord F)
      → Option (StrategyRecord F)
      → Result (List StrategyError) (StrategyRecord F × List (StrategyRecord F))
  return_or_add s plan rows (some existing) = ok (existing, rows)
  return_or_add s plan rows none = do
    explanation ← explain_strategy render s
    let added : StrategyRecord F = record {
      strategy_hash = plan.strategy_hash;
      compiler_version = plan.compiler_version;
      spec = s;
      complexity = plan.complexity;
      explanation = explanation;
    }
    ok (added, rows ++ (added ∷ []))

  -- The record, and the rows afterwards.
  unfoldable pub create :
      StrategySpec F
      → List (StrategyRecord F)
      → Result (List StrategyError) (StrategyRecord F × List (StrategyRecord F))
  unfolding compile_strategy
  create s rows = do
    valid ← validate_strategy s
    plan ← compile_strategy render s
    return_or_add s plan rows (find (has_hash plan.strategy_hash) rows)
