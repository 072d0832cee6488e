-- ===== src/Facts/Codec.antt =====
-- Encoding and decoding of payloads, evidence and facts (src/analysis_facts.cpp). The error texts
-- are left out: a failure is `none`.
use viy.Base.{
  ℕ, Bool, true, false, not, ◌&&◌, ◌||◌, Option, none, some, List, [], ◌∷◌, ◌++◌, length, ltb, leb,
  ◌==◌, if◌then◌else◌,
}
use viy.Base.Lex.{equal_bytes}
use viy.Facts.Enums.{
  fact_kind_list, ProofKind, proof_kind_code, proof_kind_list, unknown_proof, observed,
  static_proof, symbolic_proof, cross_run_corroboration, heuristic, imported, user_asserted,
  Reachability, not_observed, reachability_code, proven_unreachable,
}
use viy.Facts.Schema.{
  EvidenceScope, Evidence, FactPayload, code_target, branch_reachability, memory_access,
  memory_value, string_candidate, function_candidate, function_trait, code_region, dispatch_map,
  cfg_candidate, function_outcome, register_value, call_observation, AnalysisFact,
}
use viy.Facts.Bytes.{
  ◌>>=◌, FactCodecLimits, write_be, write_blob, writable, write_optional, read_u16, read_u64,
  read_sized, read_count, read_optional, read_enum, read_magic, read_version,
}
use viy.Facts.Sort.{sort, unique, is_sorted, no_adjacent}
use viy.Facts.Validate.{normal_payload, validate_payload, above, is_none, max_u32}
use viy.Facts.Encode.{payload_magic, encode_normalized_payload}
use viy.Facts.Decode.{read_items, decode_payload_body}

abbrev pub ensure {ℓ} : {A : Type ℓ} → Bool → A → Option A
ensure test value = if test then some value else none

unfoldable pub normalize_payload : FactPayload → Option FactPayload
normalize_payload payload =
    ensure (validate_payload (normal_payload payload)) (normal_payload payload)

unfoldable pub encode_payload : FactPayload → Option (List ℕ)
encode_payload payload = normalize_payload payload >>= encode_normalized_payload

-- The kind, and the body behind it, which must take all bytes.
unfoldable pub read_payload : FactCodecLimits → List ℕ → Option FactPayload
read_payload limits bytes = do
  b1 ← read_magic payload_magic bytes
  b2 ← read_version b1
  (kind, b3) ← read_enum fact_kind_list 1 b2
  (decoded, rest) ← decode_payload_body limits kind b3
  ensure (length rest == 0) decoded

unfoldable pub decode_payload : FactCodecLimits → List ℕ → Option FactPayload
decode_payload limits bytes = do
  accepted ← ensure (leb (length bytes) limits.max_fact_bytes) bytes
  decoded ← read_payload limits accepted
  normalized ← normalize_payload decoded
  canonical ← encode_normalized_payload normalized
  ensure (equal_bytes canonical bytes) normalized

unfoldable pub normal_evidence : Evidence → Evidence
normal_evidence evidence = record evidence {
  support_addresses = unique ◌==◌ (sort ltb evidence.support_addresses);
}

unfoldable pub validate_evidence : Evidence → Bool
validate_evidence evidence =
    not (length evidence.producer == 0)
    && not (length evidence.method == 0)
    && leb evidence.confidence 10000
    && (is_none evidence.scope.function_end || not (is_none evidence.scope.function_start))
    && elim evidence.scope.function_start [
      | none ↦ true
      | some start ↦ above start evidence.scope.function_end
    ]
    && is_sorted ltb evidence.support_addresses
    && no_adjacent ◌==◌ evidence.support_addresses
    && leb (length evidence.support_addresses) max_u32
    && leb (length evidence.producer) max_u32
    && leb (length evidence.method) max_u32
    && leb (length evidence.detail) max_u32

unfoldable pub normalize_evidence : Evidence → Option Evidence
normalize_evidence evidence =
    ensure (validate_evidence (normal_evidence evidence)) (normal_evidence evidence)

abbrev pub evidence_magic : List ℕ
evidence_magic = 0x56 ∷ 0x49 ∷ 0x59 ∷ 0x45 ∷ []

unfoldable pub write_addresses : List ℕ → List ℕ → List ℕ
unfolding write_be
write_addresses [] tail = tail
write_addresses (a ∷ addresses) tail = write_be 8 a (write_addresses addresses tail)

unfoldable pub write_scope : EvidenceScope → List ℕ → List ℕ
unfolding write_be write_optional
write_scope scope tail = write_optional (write_be 8) scope.run_id (
    write_optional (write_be 8) scope.seed (
      write_optional (write_be 8) scope.function_start
        (write_optional (write_be 8) scope.function_end (write_be 8 scope.generation tail))))

unfoldable pub evidence_body : Evidence → List ℕ
unfolding write_scope write_addresses write_blob proof_kind_code
evidence_body e = write_blob e.producer (
    write_blob e.method (
      proof_kind_code e.proof
      ∷ write_be 2 e.confidence (
          write_scope e.scope (
            write_be 4 (length e.support_addresses)
              (write_addresses e.support_addresses (write_blob e.detail []))))))

unfoldable pub encode_normalized_evidence : Evidence → Option (List ℕ)
unfolding evidence_body writable
encode_normalized_evidence evidence =
    ensure
      (writable evidence.producer
        && writable evidence.method
        && leb (length evidence.support_addresses) max_u32
        && writable evidence.detail)
      (evidence_magic ++ write_be 2 1 (evidence_body evidence))

unfoldable pub encode_evidence : Evidence → Option (List ℕ)
encode_evidence evidence = normalize_evidence evidence >>= encode_normalized_evidence

unfoldable pub read_scope : List ℕ → Option (EvidenceScope × List ℕ)
read_scope b0 = do
  (run_id, b1) ← read_optional read_u64 b0
  (seed, b2) ← read_optional read_u64 b1
  (function_start, b3) ← read_optional read_u64 b2
  (function_end, b4) ← read_optional read_u64 b3
  (generation, b5) ← read_u64 b4
  some (
    record {
      run_id = run_id;
      seed = seed;
      function_start = function_start;
      function_end = function_end;
      generation = generation;
    },
    b5,
  )

unfoldable pub read_evidence : FactCodecLimits → List ℕ → Option Evidence
read_evidence limits bytes = do
  b1 ← read_magic evidence_magic bytes
  b2 ← read_version b1
  (producer, b3) ← read_sized limits.max_string_bytes b2
  (method, b4) ← read_sized limits.max_string_bytes b3
  (proof, b5) ← read_enum proof_kind_list 0 b4
  (confidence, b6) ← read_u16 b5
  (scope, b7) ← read_scope b6
  (support_count, b8) ← read_count limits b7
  (support_addresses, b9) ← read_items read_u64 support_count b8
  (detail, rest) ← read_sized limits.max_string_bytes b9
  ensure (length rest == 0) (record {
    producer = producer;
    method = method;
    proof = proof;
    confidence = confidence;
    scope = scope;
    support_addresses = support_addresses;
    detail = detail;
  })

unfoldable pub decode_evidence : FactCodecLimits → List ℕ → Option Evidence
decode_evidence limits bytes = do
  accepted ← ensure (leb (length bytes) limits.max_fact_bytes) bytes
  decoded ← read_evidence limits accepted
  valid ← ensure (validate_evidence decoded) decoded
  canonical ← encode_normalized_evidence valid
  ensure (equal_bytes canonical bytes) valid

unfoldable pub proof_can_establish_unreachable : ProofKind → Bool
proof_can_establish_unreachable static_proof = true
proof_can_establish_unreachable symbolic_proof = true
proof_can_establish_unreachable imported = true
proof_can_establish_unreachable user_asserted = true
proof_can_establish_unreachable unknown_proof = false
proof_can_establish_unreachable observed = false
proof_can_establish_unreachable cross_run_corroboration = false
proof_can_establish_unreachable heuristic = false

-- The reachability that a payload states; NotObserved stands for none, as in the source.
unfoldable pub stated_reachability : FactPayload → Reachability
stated_reachability (branch_reachability f) = f.state
stated_reachability (cfg_candidate f) = f.state
stated_reachability (code_target f) = not_observed
stated_reachability (memory_access f) = not_observed
stated_reachability (memory_value f) = not_observed
stated_reachability (string_candidate f) = not_observed
stated_reachability (function_candidate f) = not_observed
stated_reachability (function_trait f) = not_observed
stated_reachability (code_region f) = not_observed
stated_reachability (dispatch_map f) = not_observed
stated_reachability (function_outcome f) = not_observed
stated_reachability (register_value f) = not_observed
stated_reachability (call_observation f) = not_observed

unfoldable pub validate_fact : AnalysisFact → Bool
unfolding validate_payload validate_evidence stated_reachability proof_can_establish_unreachable
    reachability_code
validate_fact fact =
    validate_payload fact.payload
    && validate_evidence fact.evidence
    && (not (
          reachability_code (stated_reachability fact.payload)
          == reachability_code proven_unreachable)
        || proof_can_establish_unreachable fact.evidence.proof)

unfoldable pub normalize_fact : AnalysisFact → Option AnalysisFact
normalize_fact fact = do
  payload ← normalize_payload fact.payload
  evidence ← normalize_evidence fact.evidence
  ensure (validate_fact (record { payload = payload; evidence = evidence }))
      (record { payload = payload; evidence = evidence })

abbrev pub fact_magic : List ℕ
fact_magic = 0x56 ∷ 0x49 ∷ 0x59 ∷ 0x46 ∷ []

-- The length-delimited parts of a fact.
unfoldable pub join_fact : List ℕ → List ℕ → Option (List ℕ)
unfolding write_blob writable
join_fact payload_bytes evidence_bytes =
    ensure (writable payload_bytes && writable evidence_bytes)
      (fact_magic ++ write_be 2 1 (write_blob payload_bytes (write_blob evidence_bytes [])))

unfoldable pub encode_analysis_fact : AnalysisFact → Option (List ℕ)
encode_analysis_fact fact = do
  normalized ← normalize_fact fact
  payload_bytes ← encode_normalized_payload normalized.payload
  evidence_bytes ← encode_normalized_evidence normalized.evidence
  join_fact payload_bytes evidence_bytes

unfoldable pub split_fact : FactCodecLimits → List ℕ → Option (List ℕ × List ℕ)
split_fact limits bytes = do
  b1 ← read_magic fact_magic bytes
  b2 ← read_version b1
  (payload_bytes, b3) ← read_sized limits.max_fact_bytes b2
  (evidence_bytes, rest) ← read_sized limits.max_fact_bytes b3
  ensure (length rest == 0) (payload_bytes, evidence_bytes)

unfoldable pub decode_analysis_fact : FactCodecLimits → List ℕ → Option AnalysisFact
decode_analysis_fact limits bytes = do
  accepted ← ensure (leb (length bytes) limits.max_fact_bytes) bytes
  (payload_bytes, evidence_bytes) ← split_fact limits accepted
  payload ← decode_payload limits payload_bytes
  evidence ← decode_evidence limits evidence_bytes
  canonical ← encode_analysis_fact (record { payload = payload; evidence = evidence })
  ensure (equal_bytes canonical bytes) (record { payload = payload; evidence = evidence })
