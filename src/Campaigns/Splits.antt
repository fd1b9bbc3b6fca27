-- ===== src/Campaigns/Splits.antt =====
-- Temporal splits (app/campaigns/splits.py). A date is its ordinal. `int(days * 0.6)` and
-- `int(days * 0.8)` are written as the integer quotients, with which the double-precision products
-- agree for every span that two dates can have.
pub mod Defs
pub mod Order
pub use Defs.*
