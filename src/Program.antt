-- ===== src/Program.antt =====
-- The snapshot of a database: src/program_model.hpp and src/program_model_core.cpp.
pub mod Defs
pub mod Seg
pub mod Func
pub mod Search
pub mod View
pub mod Loaded
mod Tests
