-- ===== src/PaperTrading/Risk.antt =====
-- `RiskEngine` (app/paper_trading/risk.py).
pub mod Defs
pub mod Limits
pub use Defs.*
