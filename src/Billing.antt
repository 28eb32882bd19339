-- ===== src/Billing.antt =====
-- Usage metering and plans: src/dgraphai/licensing/metering.py, and the limits of
-- src/dgraphai/api/usage.py.
pub mod Metering
pub mod Plans
mod Tests
