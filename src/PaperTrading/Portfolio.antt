-- ===== src/PaperTrading/Portfolio.antt =====
-- `Portfolio` (app/paper_trading/portfolio.py): cash, positions and the last prices seen. Symbols are
-- `upper`-cased on the way in.
pub mod Defs
pub mod Holdings
pub use Defs.*
