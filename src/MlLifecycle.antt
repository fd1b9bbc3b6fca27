-- ===== src/MlLifecycle.antt =====
-- The life cycle of machine-learned models (app/ml_research/lifecycle.py): drift, retraining, promotion
-- and lineage.
pub mod Drift
pub mod Model
pub mod Service
pub mod Promotion
pub mod Statuses
pub mod Verdict
pub mod Growth
pub mod Lineage
mod Tests
