-- ===== src/PaperTrading/Execution.antt =====
-- The execution models and the PAPER broker (app/paper_trading/execution.py, app/paper_trading/broker.py).
pub mod Defs
pub mod Broker
pub mod Fills
pub use Defs.*
