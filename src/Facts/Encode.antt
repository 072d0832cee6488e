-- ===== src/Facts/Encode.antt =====
-- The canonical bytes of a payload (encode_normalized_payload of src/analysis_facts.cpp). A body is
-- written from its last field to its first, each in front of what stands behind it.
use viy.Base.{ℕ, Bool, true, ◌&&◌, Option, none, some, List, [], ◌∷◌, ◌++◌, length, if◌then◌else◌}
use viy.Facts.Enums.{
  code_target_kind_code, reachability_code, memory_access_kind_code, string_encoding_code,
  function_candidate_kind_code, function_trait_kind_code, trait_value_kind_code, fact_kind_code,
}
use viy.Facts.Kinds.{
  code_region_kind_code, cfg_edge_kind_code, function_stop_kind_code, register_state_point_code,
  call_kind_code, call_result_code,
}
use viy.Facts.Schema.{
  DispatchCase, CallValue, FactPayload, code_target, branch_reachability, memory_access,
  memory_value, string_candidate, function_candidate, function_trait, code_region, dispatch_map,
  cfg_candidate, function_outcome, register_value, call_observation, fact_kind,
}
use viy.Facts.Bytes.{write_bool, write_be, write_i64, write_blob, writable, write_optional}

unfoldable pub write_cases : List DispatchCase → List ℕ → List ℕ
unfolding write_be write_optional
write_cases [] tail = tail
write_cases (c ∷ cases) tail =
    write_optional (write_be 8) c.selector (write_be 8 c.target (write_cases cases tail))

unfoldable pub write_call_values : List CallValue → List ℕ → List ℕ
unfolding write_be write_blob
write_call_values [] tail = tail
write_call_values (v ∷ values) tail =
    write_be 4 v.ordinal
      (write_blob v.location (write_blob v.bytes (write_call_values values tail)))

unfoldable pub payload_body : FactPayload → List ℕ
unfolding write_bool write_be write_i64 write_blob write_optional write_cases write_call_values
    code_target_kind_code reachability_code memory_access_kind_code string_encoding_code
    function_candidate_kind_code function_trait_kind_code trait_value_kind_code
    code_region_kind_code cfg_edge_kind_code function_stop_kind_code register_state_point_code
    call_kind_code call_result_code
payload_body (code_target f) =
    write_be 8 f.from
      (write_be 8 f.target (code_target_kind_code f.kind ∷ (write_bool f.unique [])))
payload_body (branch_reachability f) =
    write_be 8 f.branch (write_be 8 f.successor (reachability_code f.state ∷ []))
payload_body (memory_access f) =
    write_be 8 f.instruction
      (write_be 8 f.address (write_be 4 f.size (memory_access_kind_code f.kind ∷ [])))
payload_body (memory_value f) =
    write_be 8 f.instruction
      (write_be 8 f.address (memory_access_kind_code f.kind ∷ (write_blob f.bytes [])))
payload_body (string_candidate f) = write_be 8 f.address (
    string_encoding_code f.encoding
    ∷ (write_blob f.bytes (write_blob f.decoded (write_bool f.null_terminated []))))
payload_body (function_candidate f) =
    write_be 8 f.entry
      (write_optional (write_be 8) f.end (function_candidate_kind_code f.kind ∷ []))
payload_body (function_trait f) = write_be 8 f.function (
    function_trait_kind_code f.trait
    ∷ (trait_value_kind_code f.value.kind
        ∷ (write_i64 f.value.signed_value (
            write_be 8 f.value.unsigned_value
              (write_bool f.value.boolean_value (write_blob f.value.text_value []))))))
payload_body (code_region f) =
    write_be 8 f.start (write_be 8 f.end (code_region_kind_code f.kind ∷ []))
payload_body (dispatch_map f) = write_be 8 f.site (
    write_be 4 (length f.cases) (
      write_cases f.cases
        (write_optional (write_be 8) f.default_target (write_bool f.complete []))))
payload_body (cfg_candidate f) =
    write_be 8 f.from
      (write_be 8 f.to (cfg_edge_kind_code f.kind ∷ (reachability_code f.state ∷ [])))
payload_body (function_outcome f) = write_be 8 f.function (
    function_stop_kind_code f.stop
    ∷ (write_optional (write_be 8) f.stop_pc (
        write_optional write_i64 f.stack_delta
          (write_optional (write_be 8) f.instruction_count []))))
payload_body (register_value f) =
    write_be 8 f.instruction
      (register_state_point_code f.point ∷ (write_blob f.register_id (write_blob f.bytes [])))
payload_body (call_observation f) = write_be 8 f.source (
    write_optional (write_be 8) f.target (
      call_kind_code f.kind
      ∷ (call_result_code f.result
          ∷ (write_be 4 (length f.arguments) (
              write_call_values f.arguments
                (write_be 4 (length f.returns) (write_call_values f.returns [])))))))

-- The tests of string and blob, which alone can fail.
unfoldable pub values_writable : List CallValue → Bool
unfolding writable
values_writable [] = true
values_writable (v ∷ values) = writable v.location && writable v.bytes && values_writable values

unfoldable pub payload_writable : FactPayload → Bool
unfolding writable values_writable
payload_writable (code_target f) = true
payload_writable (branch_reachability f) = true
payload_writable (memory_access f) = true
payload_writable (memory_value f) = writable f.bytes
payload_writable (string_candidate f) = writable f.bytes && writable f.decoded
payload_writable (function_candidate f) = true
payload_writable (function_trait f) = writable f.value.text_value
payload_writable (code_region f) = true
payload_writable (dispatch_map f) = true
payload_writable (cfg_candidate f) = true
payload_writable (function_outcome f) = true
payload_writable (register_value f) = writable f.register_id && writable f.bytes
payload_writable (call_observation f) = values_writable f.arguments && values_writable f.returns

abbrev pub payload_magic : List ℕ
payload_magic = 0x56 ∷ 0x49 ∷ 0x59 ∷ 0x50 ∷ []

unfoldable pub encode_normalized_payload : FactPayload → Option (List ℕ)
unfolding payload_body payload_writable write_be fact_kind fact_kind_code
encode_normalized_payload payload =
    if payload_writable payload
    then some
        (payload_magic ++ write_be 2 1 (fact_kind_code (fact_kind payload) ∷ payload_body payload))
    else none
