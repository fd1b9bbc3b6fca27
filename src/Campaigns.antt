-- ===== src/Campaigns.antt =====
-- Research campaigns (app/campaigns).
pub mod Splits
pub mod WalkForward
pub mod Service
mod Tests
pub mod Optimization
pub mod Scoring
