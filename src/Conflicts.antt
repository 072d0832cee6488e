-- ===== src/Conflicts.antt =====
-- The conflicts between the facts of a ledger: src/evidence_store.hpp and src/evidence_store.cpp.
pub mod Payloads
pub mod Dispatch
pub mod Calls
pub mod Compare
pub mod Keys
pub mod Contradicts
pub mod Loops
pub mod Index
pub mod Marks
pub mod Sorted
pub mod Sweep
pub mod Found
pub mod Detect
pub mod Covered
pub mod Detected
pub mod Samples
mod Tests
