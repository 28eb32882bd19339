-- ===== src/Alerts.antt =====
-- The alert engine: src/dgraphai/alerts/engine.py, with its rows of src/dgraphai/db/alert_models.py.
pub mod Engine
mod Tests
