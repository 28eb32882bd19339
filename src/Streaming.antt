-- ===== src/Streaming.antt =====
-- The choice of an agent to stream from: src/dgraphai/streaming/router.py.
pub mod Router
mod Tests
