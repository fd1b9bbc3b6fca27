-- ===== src/ModelRouting.antt =====
-- The choice of a model for a task, and its fallbacks (app/model_routing).
pub mod Defs
pub mod Selection
pub mod Fallback
mod Tests
