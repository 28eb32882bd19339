-- ===== src/Identity.antt =====
-- Who sends a request: src/dgraphai/auth/oidc.py.
pub mod Keys
pub mod Context
mod Tests
