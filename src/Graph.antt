-- ===== src/Graph.antt =====
-- The graph layer (src/dgraphai/graph).
pub mod CircuitBreaker
pub mod Dedup
