-- ===== src/Worker.antt =====
-- apps/worker: the background task that activates an uploaded dataset.
pub mod Batch
pub mod Task
pub mod Schedule
pub mod Delivery
mod Tests
