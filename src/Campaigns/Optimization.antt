-- ===== src/Campaigns/Optimization.antt =====
-- Parameter variants of a campaign and its plan (app/campaigns/optimization.py, app/campaigns/service.py).
pub mod Space
pub mod Sampling
pub mod Plan
pub mod Variants
pub mod Planned
mod Tests
