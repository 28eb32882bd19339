-- ===== src/Queries.antt =====
-- The library of saved queries: src/dgraphai/api/queries.py.
pub mod Model
pub mod Handlers
pub mod Ownership
mod Tests
