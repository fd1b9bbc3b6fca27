-- ===== src/StrategyHealth.antt =====
-- The health of strategies (app/strategy_health): assessment, life cycle and research triggers.
pub mod Assessment
pub mod Model
pub mod Rows
pub mod Research
pub mod Service
pub mod Operations
pub mod Consistency
pub mod Retirement
pub mod Triggers
pub mod Degradation
pub mod Observed
mod Tests
