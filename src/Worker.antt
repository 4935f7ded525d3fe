-- ===== src/Worker.antt =====
-- The control thread `control_worker` of board/src/main.c.
pub mod State
pub mod Cotf
pub mod Poll
pub mod Ledger
pub mod Degraded
pub mod Stale
pub mod Near
mod Tests
