-- ===== src/Decoder/Defs.antt =====
-- The data of src/decoder_core.hpp. The rax library is not part of the repository: the values of its
-- RAX_FLOW_* enumeration are the parameter `Flows`.
use viy.Base.{ℕ, Bool, false}
use viy.Base.Int.{ℤ}

-- RAX_FLOW_*, without an order between them.
pub record Flows : Type 0 where
  pub fallthrough : ℤ
  pub branch : ℤ
  pub cond_branch : ℤ
  pub indirect_jump : ℤ
  pub call : ℤ
  pub indirect_call : ℤ
  pub unknown : ℤ

-- rax_decoded, as far as the policy reads it; the flags are bytes.
pub record RaxDecoded : Type 0 where
  pub valid : ℕ
  pub size : ℕ
  pub flow : ℤ
  pub is_indirect : ℕ
  pub has_target : ℕ
  pub target : ℕ

-- DecoderTargetKind
pub data TargetKind : Type 0 where
  no_target call_target jump_target : TargetKind

pub record DecoderInstruction : Type 0 where
  pub valid : Bool
  pub size : ℕ
  pub flow : ℤ
  pub indirect : Bool
  pub has_target : Bool
  pub target : ℕ

pub record DecoderDirectTarget : Type 0 where
  pub valid : Bool
  pub kind : TargetKind
  pub address : ℕ

-- DecoderDecodeStatus
pub data DecodeStatus : Type 0 where
  valid_decode unavailable invalid_input backend_error invalid_encoding malformed_result :
      DecodeStatus

-- DecoderDecodeResult
pub record DecodeResult : Type 0 where
  pub status : DecodeStatus
  pub instruction : DecoderInstruction

pub record DecoderComparison : Type 0 where
  pub comparable : Bool
  pub size_disagreement : Bool
  pub flow_disagreement : Bool
  pub targets_comparable : Bool
  pub target_disagreement : Bool
  pub left_target : DecoderDirectTarget
  pub right_target : DecoderDirectTarget

-- DecoderInstruction{}
abbrev pub no_instruction : ℤ → DecoderInstruction
no_instruction unknown = record {
  valid = false;
  size = 0;
  flow = unknown;
  indirect = false;
  has_target = false;
  target = 0;
}

-- DecoderDirectTarget{}
abbrev pub no_direct_target : DecoderDirectTarget
no_direct_target = record { valid = false; kind = no_target; address = 0 }
