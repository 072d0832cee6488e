-- ===== src/Decoder/Accept.antt =====
-- Which results of rax's decoder are taken (viy_accept_rax_decoded, viy_decode_one and
-- viy_decoder_direct_target of src/decoder_core.cpp).
use viy.Base.{
  ℕ, ◌≤◌, ◌<◌, ◌≡◌, refl, Bool, true, not, ◌&&◌, ◌||◌, Option, none, some, List, [], ◌∷◌, arith,
  length, ltb, ◌==◌, if◌then◌else◌,
}
use viy.Base.Int.{ℤ, leb_ℤ, ◌==ℤ◌}
use viy.Decoder.Defs.{
  Flows, RaxDecoded, no_target, call_target, jump_target, DecoderInstruction, DecoderDirectTarget,
  DecodeStatus, valid_decode, unavailable, invalid_input, backend_error, invalid_encoding,
  malformed_result, DecodeResult, no_instruction, no_direct_target,
}

module _ (flows : Flows) where
  open flows use {fallthrough, branch, cond_branch, indirect_jump, call, indirect_call, unknown}

  unfoldable pub known_flow : ℤ → Bool
  known_flow flow = leb_ℤ fallthrough flow && leb_ℤ flow unknown

  unfoldable pub direct_flow : ℤ → Bool
  direct_flow flow = flow ==ℤ call || flow ==ℤ branch || flow ==ℤ cond_branch

  unfoldable pub indirect_flow : ℤ → Bool
  indirect_flow flow = flow ==ℤ indirect_call || flow ==ℤ indirect_jump

  -- viy_decoder_direct_target
  unfoldable pub direct_target : DecoderInstruction → DecoderDirectTarget
  direct_target i =
      if not i.valid || i.size == 0 || i.indirect || not i.has_target
      then no_direct_target
      else if i.flow ==ℤ call
      then record { valid = true; kind = call_target; address = i.target }
      else if i.flow ==ℤ branch || i.flow ==ℤ cond_branch
      then record { valid = true; kind = jump_target; address = i.target }
      else no_direct_target

  rejected : DecodeStatus → DecodeResult
  rejected status = record { status = status; instruction = no_instruction unknown }

  -- The first test: a flag out of range, an impossible size or an unknown flow.
  unfoldable pub malformed : RaxDecoded → ℕ → Bool
  unfolding known_flow
  malformed d offered =
      not (d.valid == 1)
      || ltb 1 d.is_indirect
      || ltb 1 d.has_target
      || d.size == 0
      || ltb offered d.size
      || not (known_flow d.flow)

  -- The second: flags that do not fit the flow.
  unfoldable pub inconsistent : RaxDecoded → Bool
  unfolding direct_flow indirect_flow
  inconsistent d =
      let direct = direct_flow d.flow in
      let indirect = indirect_flow d.flow in
      direct && (d.has_target == 0 || not (d.is_indirect == 0))
      || indirect && (not (d.has_target == 0) || d.is_indirect == 0)
      || not direct && not indirect && (not (d.has_target == 0) || not (d.is_indirect == 0))

  -- viy_accept_rax_decoded
  unfoldable pub accept : RaxDecoded → ℕ → DecodeResult
  unfolding malformed inconsistent rejected
  accept d offered =
      if offered == 0 || d.valid == 0
      then rejected invalid_encoding
      else if malformed d offered
      then rejected malformed_result
      else if inconsistent d
      then rejected malformed_result
      else record {
        status = valid_decode;
        instruction = record {
          valid = true;
          size = d.size;
          flow = d.flow;
          indirect = not (d.is_indirect == 0);
          has_target = not (d.has_target == 0);
          target = d.target;
        };
      }

  -- the decoder's answer: none is a status other than RAX_OK
  unfoldable pub accept_answer : ℕ → Option RaxDecoded → DecodeResult
  unfolding accept rejected
  accept_answer offered none = rejected backend_error
  accept_answer offered (some d) = accept d offered

  -- viy_decode_one: `decode` is rax's decoder with its architecture and mode, or none for a null
  -- pointer; it gives none for a status other than RAX_OK. `bytes` is none for a null pointer.
  unfoldable pub decode_one :
      Option (ℕ → List ℕ → Option RaxDecoded) → ℕ → Option (List ℕ) → DecodeResult
  unfolding accept_answer rejected
  decode_one none pc bytes = rejected unavailable
  decode_one (some decode) pc none = rejected invalid_input
  decode_one (some decode) pc (some bytes) =
      if length bytes == 0
      then rejected invalid_input
      else accept_answer (length bytes) (decode pc bytes)

  -- What an accepted instruction promises.
  pub record IsConsistent (offered : ℕ) (i : DecoderInstruction) : Type 0 where
    pub is_valid : i.valid ≡ true
    pub sized : (0 < i.size) × (i.size ≤ offered)
    pub is_known : known_flow i.flow ≡ true
    pub targeted : i.has_target ≡ direct_flow i.flow
    pub indirected : i.indirect ≡ (not (direct_flow i.flow) && indirect_flow i.flow)

  -- A result that is taken is a valid instruction of one byte at least and of no more than was
  -- offered, whose flow is known, which has a target exactly if its flow is direct and is indirect
  -- exactly if its flow is indirect and not direct.
  pub accept-IsConsistent :
      (d : RaxDecoded) (offered : ℕ)
      → (accept d offered).status ≡ valid_decode
      → IsConsistent offered (accept d offered).instruction
  unfolding accept malformed inconsistent rejected
  accept-IsConsistent d offered h = ground arith

  -- An accepted instruction has a direct target exactly if its flow is a call or a direct branch;
  -- the target is then the decoded one, and is that of a call exactly if the flow is one.
  pub direct_target-accept :
      (d : RaxDecoded) (offered : ℕ)
      → (accept d offered).status ≡ valid_decode
      → ((direct_target (accept d offered).instruction).valid ≡ (direct_flow d.flow))
        × ((direct_target (accept d offered).instruction).address
            ≡ (if direct_flow d.flow then d.target else 0))
        × ((direct_target (accept d offered).instruction).kind ≡ (
            if direct_flow d.flow
            then (if d.flow ==ℤ call then call_target else jump_target)
            else no_target))
  unfolding accept malformed inconsistent rejected direct_target
  direct_target-accept d offered h = (ground arith, ground arith, ground arith)

  accept_answer-IsConsistent :
      (offered : ℕ) (o : Option RaxDecoded)
      → (accept_answer offered o).status ≡ valid_decode
      → IsConsistent offered (accept_answer offered o).instruction
  unfolding accept_answer rejected
  accept_answer-IsConsistent offered none h = absurd (cc)
  accept_answer-IsConsistent offered (some d) h = accept-IsConsistent d offered h

  -- A decode that succeeds had a decoder and a byte at least, and its instruction fits in them.
  pub decode_one-IsConsistent :
      (decode : Option (ℕ → List ℕ → Option RaxDecoded)) (pc : ℕ) (bytes : Option (List ℕ))
      → (decode_one decode pc bytes).status ≡ valid_decode
      → (xs : List ℕ) × (bytes ≡ some xs)
        × IsConsistent (length xs) (decode_one decode pc bytes).instruction
  unfolding decode_one rejected
  decode_one-IsConsistent none pc bytes h = absurd (cc)
  decode_one-IsConsistent (some decode) pc none h = absurd (cc)
  decode_one-IsConsistent (some decode) pc (some []) h = absurd (cc)
  decode_one-IsConsistent (some decode) pc (some (x ∷ xs)) h = (
    x ∷ xs,
    refl,
    rw one_answer
        (accept_answer-IsConsistent (length (x ∷ xs)) (decode pc (x ∷ xs)) (rw one_answer at h)),
  )
    where
      one_answer :
          decode_one (some decode) pc (some (x ∷ xs))
          ≡ accept_answer (length (x ∷ xs)) (decode pc (x ∷ xs))
      one_answer = ground arith
