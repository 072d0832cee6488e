-- ===== src/Decoder/Compare.antt =====
-- How two decoders' views of one instruction are compared (viy_compare_decoders of
-- src/decoder_core.cpp).
use viy.Base.{◌≡◌, Bool, true, false, not, ◌&&◌, ◌||◌, arith, ◌==◌, if◌then◌else◌}
use viy.Base.Int.{◌==ℤ◌}
use viy.Decoder.Defs.{
  Flows, TargetKind, no_target, call_target, jump_target, DecoderInstruction, DecoderDirectTarget,
  DecoderComparison,
}
use viy.Decoder.Accept.{direct_target}

abbrev pub same_kind : TargetKind → TargetKind → Bool
same_kind no_target no_target = true
same_kind call_target call_target = true
same_kind jump_target jump_target = true
same_kind _ _ = false

unfoldable pub targets_differ : DecoderDirectTarget → DecoderDirectTarget → Bool
targets_differ l r =
    l.valid && not r.valid
    || not l.valid && r.valid
    || l.valid && r.valid && (not (same_kind l.kind r.kind) || not (l.address == r.address))

-- The two views with their sides exchanged.
abbrev pub mirrored : DecoderComparison → DecoderComparison
mirrored c = record c { left_target = c.right_target; right_target = c.left_target }

module _ (flows : Flows) where
  unfoldable pub compare_decoders : DecoderInstruction → DecoderInstruction → DecoderComparison
  unfolding targets_differ
  compare_decoders left right =
      let l = direct_target flows left in
      let r = direct_target flows right in
      if not left.valid || not right.valid || left.size == 0 || right.size == 0
      then record {
        comparable = false;
        size_disagreement = false;
        flow_disagreement = false;
        targets_comparable = false;
        target_disagreement = false;
        left_target = l;
        right_target = r;
      }
      else record {
        comparable = true;
        size_disagreement = not (left.size == right.size);
        flow_disagreement = not (left.flow ==ℤ right.flow);
        targets_comparable = l.valid || r.valid;
        target_disagreement = (l.valid || r.valid) && targets_differ l r;
        left_target = l;
        right_target = r;
      }

  same_kind_comm : (a b : TargetKind) → same_kind a b ≡ same_kind b a
  same_kind_comm a b = ground arith

  differ_comm : (l r : DecoderDirectTarget) → targets_differ l r ≡ targets_differ r l
  unfolding targets_differ
  differ_comm l r = ground arith

  -- The comparison does not depend on which decoder stands on the left.
  pub compare_decoders_comm :
      (left right : DecoderInstruction)
      → compare_decoders left right ≡ mirrored (compare_decoders right left)
  unfolding compare_decoders
  compare_decoders_comm left right =
      ground (arith, differ_comm (direct_target flows left) (direct_target flows right))

  -- Two decoders agree on size, flow and target exactly where they can be compared and give the
  -- same of each; an instruction never disagrees with itself.
  pub compare_decoders_self :
      (i : DecoderInstruction)
      → ((compare_decoders i i).size_disagreement ≡ false)
        × ((compare_decoders i i).flow_disagreement ≡ false)
        × ((compare_decoders i i).target_disagreement ≡ false)
  unfolding compare_decoders targets_differ
  compare_decoders_self i = (ground arith, ground arith, ground arith)
