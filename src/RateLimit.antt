-- ===== src/RateLimit.antt =====
-- The rate limiter: src/dgraphai/middleware/rate_limit.py.
pub mod Redis
pub mod Limiter
mod Tests
