-- ===== src/StrategyDsl.antt =====
-- The strategy language (app/strategy_dsl): its syntax, validation, compilation, evaluation and records.
pub mod Syntax
pub mod Validation
pub mod WellFormed
pub mod Evaluation
pub mod Causality
pub mod Compiler
pub mod Service
pub mod Records
mod Tests
