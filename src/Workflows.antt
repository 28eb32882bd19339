-- ===== src/Workflows.antt =====
-- Approval workflows: src/dgraphai/workflows/engine.py, its tables in src/dgraphai/db/query_models.py,
-- and the decision endpoint of src/dgraphai/api/workflows.py.
pub mod Model
pub mod Actions
pub mod Engine
pub mod Runs
mod Tests
