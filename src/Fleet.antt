-- ===== src/Fleet.antt =====
-- Fleets of scanner agents: src/dgraphai/api/fleet.py.
pub mod Model
pub mod Assign
pub mod Mesh
pub mod Store
pub mod Lists
pub mod Calls
mod Tests
