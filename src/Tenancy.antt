-- ===== src/Tenancy.antt =====
-- Tenants and their members: sign-up in src/dgraphai/auth/local.py, invitations and profiles in
-- src/dgraphai/api/users.py, provisioning in src/dgraphai/auth/scim.py.
pub mod Model
pub mod Signup
pub mod Invites
pub mod Scim
mod Tests
