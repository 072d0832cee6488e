-- ===== src/Decoder.antt =====
-- The policy of the static decoder: src/decoder_core.hpp and src/decoder_core.cpp.
pub mod Defs
pub mod Window
pub mod Accept
pub mod Compare
mod Tests
