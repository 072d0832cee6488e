-- ===== src/Facts.antt =====
-- Facts and their canonical bytes: src/analysis_facts.hpp and src/analysis_facts.cpp.
pub mod Enums
pub mod Kinds
pub mod Codes
pub mod Schema
pub mod Bytes
pub mod BytesRead
pub mod Text
pub mod Sort
pub mod Validate
pub mod Encode
pub mod Decode
pub mod Codec
pub mod Normal
pub mod Fits
pub mod EnumRead
pub mod ItemRead
pub mod BodyRead
pub mod PayloadRead
pub mod Canonical
pub mod EvidenceRead
pub mod Valid
pub mod FactRead
pub mod Sha256
pub mod Samples
pub mod Tests
