-- ===== src/Abi.antt =====
-- Calling conventions and the seeding of a run: src/abi_policy.hpp and src/abi_policy.cpp.
pub mod Defs
pub mod Layout
pub mod Plan
pub mod Placement
pub mod Seed
mod Tests
