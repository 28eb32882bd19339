-- ===== src/Inventory.antt =====
-- The taxonomy of the inventory: src/dgraphai/inventory/taxonomy.py.
pub mod Model
pub mod Taxonomy
pub mod Groups
pub mod Tenants
mod Tests
