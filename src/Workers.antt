-- ===== src/Workers.antt =====
-- The worker pool of src/emulation_workers.cpp.
pub mod Defs
pub mod Calls
pub mod Threads
pub mod Events
pub mod Drain
pub mod Invariant
pub mod Keeps
pub mod Run
pub mod Delivery
pub mod Order
pub mod Settle
pub mod Cancel
pub mod Stamped
pub mod StampedRun
pub mod Stale
pub mod Count
mod Tests
