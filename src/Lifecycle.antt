-- ===== src/Lifecycle.antt =====
-- Generations and the active view: src/evidence_lifecycle.hpp and src/evidence_lifecycle.cpp.
pub mod Defs
pub mod Pigeonhole
pub mod Fresh
pub mod Seed
pub mod View
pub mod Activity
pub mod Active
mod Tests
