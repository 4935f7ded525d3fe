-- ===== src/LutBridge.antt =====
-- The bridge from a model's LUT to the ISP's CLUT, of board/src/lut_bridge.c.
pub mod Limit
pub mod Approach
pub mod Near
pub mod Pack
pub mod Bridge
pub mod Identity
pub mod Cube
pub mod Unchanged
mod Tests
