-- ===== src/Facts/BodyRead.antt =====
-- Reading a body that was written gives the payload back (src/analysis_facts.cpp).
use viy.Base.{◌≡◌, refl, some, [], ◌∷◌}
use viy.Facts.Enums.{
  code_target_kind_code, reachability_code, memory_access_kind_code, string_encoding_code,
  function_candidate_kind_code, function_trait_kind_code, trait_value_kind_code,
}
use viy.Facts.Schema.{
  CodeTargetFact, BranchReachabilityFact, MemoryAccessFact, MemoryValueFact, StringCandidateFact,
  FunctionCandidateFact, FunctionTraitFact, code_target, branch_reachability, memory_access,
  memory_value, string_candidate, function_candidate, function_trait,
}
use viy.Facts.Bytes.{FactCodecLimits, write_bool, write_be, write_i64, write_blob, write_optional}
use viy.Facts.BytesRead.{
  read_bool-write_bool, read_u32-write_be, read_u64-write_be, read_i64-write_i64,
  read_sized-write_blob,
}
use viy.Facts.Encode.{payload_body}
use viy.Facts.Decode.{
  read_code_target, read_branch_reachability, read_memory_access, read_memory_value,
  read_string_candidate, read_function_candidate, read_function_trait,
}
use viy.Facts.Fits.{PayloadFits}
use viy.Facts.EnumRead.{
  read_code_target_kind, read_reachability, read_memory_access_kind, read_string_encoding,
  read_function_candidate_kind, read_function_trait_kind, read_trait_value_kind,
}
use viy.Facts.ItemRead.{read_optional_u64}

pub read_code_target_lem :
    (limits : FactCodecLimits) (f : CodeTargetFact)
    → PayloadFits limits (code_target f)
    → read_code_target limits (payload_body (code_target f)) ≡ some (code_target f, [])
unfolding read_code_target payload_body PayloadFits
read_code_target_lem limits f (h0, h1) =
    rw
      (
        read_u64-write_be f.from
            (write_be 8 f.target (code_target_kind_code f.kind ∷ (write_bool f.unique []))) h0,
        read_u64-write_be f.target (code_target_kind_code f.kind ∷ (write_bool f.unique [])) h1,
        read_code_target_kind f.kind (write_bool f.unique []),
        read_bool-write_bool f.unique [],
      )
      refl

pub read_branch_reachability_lem :
    (limits : FactCodecLimits) (f : BranchReachabilityFact)
    → PayloadFits limits (branch_reachability f)
    → read_branch_reachability limits (payload_body (branch_reachability f))
      ≡ some (branch_reachability f, [])
unfolding read_branch_reachability payload_body PayloadFits
read_branch_reachability_lem limits f (h0, h1) =
    rw
      (
        read_u64-write_be f.branch (write_be 8 f.successor (reachability_code f.state ∷ [])) h0,
        read_u64-write_be f.successor (reachability_code f.state ∷ []) h1,
        read_reachability f.state [],
      )
      refl

pub read_memory_access_lem :
    (limits : FactCodecLimits) (f : MemoryAccessFact)
    → PayloadFits limits (memory_access f)
    → read_memory_access limits (payload_body (memory_access f)) ≡ some (memory_access f, [])
unfolding read_memory_access payload_body PayloadFits
read_memory_access_lem limits f (h0, h1, h2) =
    rw
      (
        read_u64-write_be f.instruction
            (write_be 8 f.address (write_be 4 f.size (memory_access_kind_code f.kind ∷ []))) h0,
        read_u64-write_be f.address (write_be 4 f.size (memory_access_kind_code f.kind ∷ [])) h1,
        read_u32-write_be f.size (memory_access_kind_code f.kind ∷ []) h2,
        read_memory_access_kind f.kind [],
      )
      refl

pub read_memory_value_lem :
    (limits : FactCodecLimits) (f : MemoryValueFact)
    → PayloadFits limits (memory_value f)
    → read_memory_value limits (payload_body (memory_value f)) ≡ some (memory_value f, [])
unfolding read_memory_value payload_body PayloadFits
read_memory_value_lem limits f (h0, h1, h3) =
    rw
      (
        read_u64-write_be f.instruction
            (write_be 8 f.address (memory_access_kind_code f.kind ∷ (write_blob f.bytes []))) h0,
        read_u64-write_be f.address (memory_access_kind_code f.kind ∷ (write_blob f.bytes [])) h1,
        read_memory_access_kind f.kind (write_blob f.bytes []),
        read_sized-write_blob limits.max_fact_bytes f.bytes [] h3.0 h3.1,
      )
      refl

pub read_string_candidate_lem :
    (limits : FactCodecLimits) (f : StringCandidateFact)
    → PayloadFits limits (string_candidate f)
    → read_string_candidate limits (payload_body (string_candidate f))
      ≡ some (string_candidate f, [])
unfolding read_string_candidate payload_body PayloadFits
read_string_candidate_lem limits f (h0, h2, h3) =
    rw
      (
        read_u64-write_be f.address
            (string_encoding_code f.encoding
              ∷ (write_blob f.bytes (write_blob f.decoded (write_bool f.null_terminated []))))
            h0,
        read_string_encoding f.encoding
            (write_blob f.bytes (write_blob f.decoded (write_bool f.null_terminated []))),
        read_sized-write_blob limits.max_fact_bytes f.bytes
            (write_blob f.decoded (write_bool f.null_terminated [])) h2.0 h2.1,
        read_sized-write_blob limits.max_string_bytes f.decoded (write_bool f.null_terminated [])
            h3.0 h3.1,
        read_bool-write_bool f.null_terminated [],
      )
      refl

pub read_function_candidate_lem :
    (limits : FactCodecLimits) (f : FunctionCandidateFact)
    → PayloadFits limits (function_candidate f)
    → read_function_candidate limits (payload_body (function_candidate f))
      ≡ some (function_candidate f, [])
unfolding read_function_candidate payload_body PayloadFits
read_function_candidate_lem limits f (h0, h1) =
    rw
      (
        read_u64-write_be f.entry
            (write_optional (write_be 8) f.end (function_candidate_kind_code f.kind ∷ [])) h0,
        read_optional_u64 f.end (function_candidate_kind_code f.kind ∷ []) h1,
        read_function_candidate_kind f.kind [],
      )
      refl

pub read_function_trait_lem :
    (limits : FactCodecLimits) (f : FunctionTraitFact)
    → PayloadFits limits (function_trait f)
    → read_function_trait limits (payload_body (function_trait f)) ≡ some (function_trait f, [])
unfolding read_function_trait payload_body PayloadFits
read_function_trait_lem limits f (h0, h3, h4, h6) =
    rw
      (
        read_u64-write_be f.function
            (function_trait_kind_code f.trait
              ∷ (trait_value_kind_code f.value.kind
                  ∷ (write_i64 f.value.signed_value (
                      write_be 8 f.value.unsigned_value
                        (write_bool f.value.boolean_value (write_blob f.value.text_value []))))))
            h0,
        read_function_trait_kind f.trait (
            trait_value_kind_code f.value.kind
            ∷ (write_i64 f.value.signed_value (
                write_be 8 f.value.unsigned_value
                  (write_bool f.value.boolean_value (write_blob f.value.text_value []))))),
        read_trait_value_kind f.value.kind (
            write_i64 f.value.signed_value (
              write_be 8 f.value.unsigned_value
                (write_bool f.value.boolean_value (write_blob f.value.text_value [])))),
        read_i64-write_i64 f.value.signed_value
            (write_be 8 f.value.unsigned_value
              (write_bool f.value.boolean_value (write_blob f.value.text_value [])))
            h3,
        read_u64-write_be f.value.unsigned_value
            (write_bool f.value.boolean_value (write_blob f.value.text_value [])) h4,
        read_bool-write_bool f.value.boolean_value (write_blob f.value.text_value []),
        read_sized-write_blob limits.max_string_bytes f.value.text_value [] h6.0 h6.1,
      )
      refl
