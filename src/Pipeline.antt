-- ===== src/Pipeline.antt =====
-- The configuration of board/src/pipeline.c and board/include/pipeline.h.
pub mod Config
pub mod Valid
mod Tests
