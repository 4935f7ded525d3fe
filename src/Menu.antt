-- ===== src/Menu.antt =====
-- The on-screen menu: board/src/menu_render.c.
pub mod Font
pub mod Paint
pub mod Layout
pub mod Render
pub mod Inside
pub mod Drawn
pub mod Hit
mod Tests
