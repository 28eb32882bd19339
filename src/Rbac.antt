-- ===== src/Rbac.antt =====
-- The access control engine, src/dgraphai/rbac/engine.py, with the two tables it reads,
-- `Role` and `RoleAssignment` of src/dgraphai/db/models.py.
pub mod Permissions
pub mod Assign
pub mod Scope
mod Tests
