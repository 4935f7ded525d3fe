-- ===== src/Control.antt =====
-- The scene decision, the refresh policy, the health gate and the feedback filter of
-- board/src/control.c.
pub mod Decide
pub mod Health
pub mod Feedback
mod Tests
