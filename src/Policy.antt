-- ===== src/Policy.antt =====
-- Which facts may change the database: src/evidence_apply_policy.hpp and
-- src/evidence_apply_policy.cpp.
pub mod Defs
pub mod Authority
pub mod Plan
pub mod Safety
mod Tests
