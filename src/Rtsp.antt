-- ===== src/Rtsp.antt =====
-- The RTSP/RTP server of board/src/rtsp_server.c.
pub mod State
pub mod Send
pub mod Packet
pub mod Annexb
pub mod Receiver
pub mod Delivery
pub mod Completion
pub mod Framing
pub mod Packets
pub mod Fragments
pub mod StartCode
pub mod Sending
pub mod Markers
pub mod Publish
pub mod Received
pub mod Delivered
pub mod Request
pub mod Consume
pub mod Server
pub mod Sane
pub mod Handling
pub mod Steps
mod SessionTests
mod Tests
