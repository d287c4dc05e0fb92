-- ===== src/Alerts.antt =====
-- apps/api/services/alerts/engine.py: alerts raised by rules, and what operators do with them.
pub mod Alert
pub mod Rules
pub mod Deduplication
pub mod Lifecycle
mod Tests
