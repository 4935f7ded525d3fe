-- ===== src/AppControl.antt =====
-- The control interface of board/src/app_control.c.
pub mod Mailbox
pub mod Settings
pub mod Json
pub mod Line
pub mod Request
pub mod Serve
pub mod Framing
pub mod Ranges
pub mod Bounded
pub mod Ids
pub mod Replies
mod Tests
mod SocketTests
