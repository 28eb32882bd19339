-- ===== src/Scanners.antt =====
-- Scanner agents: src/dgraphai/api/scanner.py.
pub mod Handlers
pub mod Rotation
mod Tests
