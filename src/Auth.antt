-- ===== src/Auth.antt =====
-- Local accounts: src/dgraphai/auth/local.py, its tables in src/dgraphai/db/models.py, and the
-- session of src/dgraphai/db/session.py.
pub mod Model
pub mod Passwords
pub mod Login
pub mod Account
pub mod Mails
mod Tests
