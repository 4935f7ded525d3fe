-- ===== src/Drivers.antt =====
-- The life cycles of the drivers: board/src/display.c, board/src/capture.c, board/src/vpss.c and
-- board/src/stream.c.
pub mod Journal
pub mod Display
pub mod Rollback
pub mod Stream
pub mod Channel
pub mod Drain
pub mod Units
pub mod Camera
mod Tests
