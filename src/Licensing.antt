-- ===== src/Licensing.antt =====
-- Licences and billing: src/dgraphai/licensing.
pub mod License
pub mod Keygen
