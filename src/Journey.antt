-- ===== src/Journey.antt =====
-- apps/api/services/journey: which observation governs an event, corrections by a steward, and the
-- reconstruction of a journey from its events.
pub mod Occurrence
pub mod Selector
pub mod Timeline
pub mod Decomposition
pub mod Correction
pub mod Reconstruction
pub mod Tests
