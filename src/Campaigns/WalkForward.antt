-- ===== src/Campaigns/WalkForward.antt =====
-- Walk-forward windows (app/campaigns/walk_forward.py).
pub mod Defs
pub mod Windows
pub mod Leakage
pub use Defs.*
