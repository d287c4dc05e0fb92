-- ===== src/Identity.antt =====
-- apps/api/services/identity: vessel calls that stand for one visit are matched and merged.
pub mod Normalizer
pub mod Record
pub mod Matcher
pub mod Survivorship
pub mod Store
pub mod Merger
mod Tests
