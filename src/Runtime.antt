-- ===== src/Runtime.antt =====
-- Recognition of values that a run wrote: src/runtime_enrich_core.hpp and
-- src/runtime_enrich_core.cpp.
pub mod Utf8
pub mod Utf8RoundTrip
pub mod Wide
pub mod Utf16RoundTrip
pub mod Tests
pub mod Candidates
pub mod Pascal
pub mod Writes
pub mod Pointers
pub mod PointersFound
pub mod Conflict
pub mod ConflictFree
pub mod Corroborated
pub mod Scan
pub mod ScanBounds
pub mod Overlap
