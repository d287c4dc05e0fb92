-- ===== src/Delays.antt =====
-- apps/api/services/delays: causes of delays, their inference, allocation and review, and timings.
pub mod Category
pub mod Delay
pub mod Inference
pub mod Allocation
pub mod Timings
mod Tests
