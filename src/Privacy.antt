-- ===== src/Privacy.antt =====
-- The right to erasure: src/dgraphai/tasks/gdpr.py, and the handler that asks for it in
-- src/dgraphai/auth/local.py.
pub mod Erasure
mod Tests
