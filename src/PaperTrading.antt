-- ===== src/PaperTrading.antt =====
-- PAPER trading (app/paper_trading): portfolio, risk engine, execution models, strategy and replay.
pub mod Number
pub mod Events
pub mod Portfolio
pub mod Risk
pub mod Execution
pub mod Strategy
pub mod Replay
pub mod Tests
pub mod Clock
pub mod Live
