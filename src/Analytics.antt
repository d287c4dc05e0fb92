-- ===== src/Analytics.antt =====
-- apps/api/services/analytics: the governed durations and the metrics computed from them.
pub mod Duration
pub mod Metric
mod Tests
