-- ===== src/App.antt =====
-- The program around the control thread: `main` of board/src/main.c.
pub mod Life
pub mod Shutdown
pub mod Layers
pub mod Orderly
pub mod Ends
pub mod StreamLoop
pub mod Pace
pub mod Options
pub mod Commands
mod Tests
mod OptionTests
