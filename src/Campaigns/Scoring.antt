-- ===== src/Campaigns/Scoring.antt =====
-- Risk flags and the components of a score (app/campaigns/overfitting.py, app/campaigns/ranking.py).
pub mod Defs
pub mod Bounds
