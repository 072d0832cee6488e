-- ===== src/Store.antt =====
-- The evidence ledger: src/evidence_store.hpp and src/evidence_store.cpp.
pub mod Defs
pub mod Invariant
pub mod Contents
pub mod Determined
pub mod Sequence
pub mod Merge
pub mod Support
pub mod TwoRuns
pub mod Latest
pub mod Newest
pub mod LatestView
pub mod Envelope
pub mod KeyOrder
pub mod Ordered
pub mod Reread
pub mod RoundTrip
pub mod Samples
mod Tests
