-- ===== src/PaperTrading/Replay.antt =====
-- The historical replay of a PAPER session (app/paper_trading/service.py).
pub mod Defs
pub mod Stream
pub mod Loop
pub mod Sound
pub mod Run
pub mod Dropped
mod Tests
