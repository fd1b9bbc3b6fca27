-- ===== src/PaperTrading/Live.antt =====
-- Live PAPER trading (app/paper_trading/live_service.py, app/market_data/live.py).
pub mod Defs
pub mod Feed
pub mod Bar
pub mod Run
pub mod Rows
pub mod Stages
pub mod Sound
pub mod Session
pub mod Limit
pub mod Reconnect
mod Tests
