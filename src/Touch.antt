-- ===== src/Touch.antt =====
-- The touch panel, and what a touch does to the menu: board/src/touch.c and the loop of board/src/main.c.
pub mod Panel
pub mod Screen
pub mod Menu
pub mod Pushes
mod Tests
