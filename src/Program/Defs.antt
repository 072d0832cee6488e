-- ===== src/Program/Defs.antt =====
-- The snapshot of a database (src/program_model.hpp). Vectors are lists; sizes and addresses are numbers below 2^64.
use viy.Base.{ℕ, ◌-◌, ◌^◌, Bool, List}

abbrev pub u64_max : ℕ
u64_max = 2 ^ 64 - 1

pub data ViyArch : Type 0 where
  unsupported x86_16 x86_32 x86_64 arm64 arm32 riscv64 cortex_m hexagon : ViyArch

-- ViySegPerm
pub data SegPerm : Type 0 where
  exec write read : SegPerm

pub record SegImage : Type 0 where
  pub start : ℕ
  pub end : ℕ
  pub perm : ℕ
  pub bitness : ℕ
  pub bytes : List ℕ
  pub mask : List ℕ

pub record FuncChunk : Type 0 where
  pub start : ℕ
  pub end : ℕ

pub record FuncRange : Type 0 where
  pub start : ℕ
  pub end : ℕ
  pub chunks : List FuncChunk
  pub byte_hash : ℕ
  pub generation : ℕ

pub record ProgramImage : Type 0 where
  pub arch : ViyArch
  pub big_endian : Bool
  pub lo : ℕ
  pub hi : ℕ
  pub segs : List SegImage
  pub entries : List FuncRange
  pub content_hash : ℕ
  pub generation : ℕ
