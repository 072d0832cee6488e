-- ===== src/Decoder/Tests.antt =====
-- The decoder policy at concrete instructions.
use viy.Base.{ℕ, ◌≡◌, refl, true, false, some, List, Option}
use viy.Base.Int.{pos}
use viy.Decoder.Defs.{Flows, RaxDecoded, DecoderInstruction, call_target}
use viy.Decoder.Accept.{
  accept, direct_target, direct_flow, IsConsistent, accept-IsConsistent, direct_target-accept,
}

abbrev numbered : Flows
numbered = record {
  fallthrough = pos 0;
  branch = pos 1;
  cond_branch = pos 2;
  indirect_jump = pos 3;
  call = pos 4;
  indirect_call = pos 5;
  unknown = pos 9;
}

-- A call of five bytes to 0x1000.
abbrev near_call : RaxDecoded
near_call = record {
  valid = 1;
  size = 5;
  flow = pos 4;
  is_indirect = 0;
  has_target = 1;
  target = 0x1000;
}

abbrev always : Option (ℕ → List ℕ → Option RaxDecoded)
always = some λ pc bytes. some near_call

accept-IsConsistent_example : IsConsistent numbered 15 (accept numbered near_call 15).instruction
accept-IsConsistent_example = accept-IsConsistent numbered near_call 15 (unfold accept in refl)

direct_target-accept_example :
    ((direct_target numbered (accept numbered near_call 15).instruction).valid ≡ true)
    × ((direct_target numbered (accept numbered near_call 15).instruction).address ≡ 0x1000)
    × ((direct_target numbered (accept numbered near_call 15).instruction).kind ≡ call_target)
unfolding direct_flow
direct_target-accept_example = direct_target-accept numbered near_call 15 (unfold accept in refl)

abbrev called : DecoderInstruction
called = record {
  valid = true;
  size = 5;
  flow = pos 4;
  indirect = false;
  has_target = true;
  target = 0x1000;
}

abbrev jumped : DecoderInstruction
jumped = record called { flow = pos 1 }
