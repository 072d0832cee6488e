-- ===== src/Facts/PayloadRead.antt =====
-- Reading a body that was written gives the payload back (src/analysis_facts.cpp).
use viy.Base.{◌≡◌, refl, some, [], ◌∷◌, length}
use viy.Facts.Enums.{reachability_code}
use viy.Facts.Kinds.{
  code_region_kind_code, cfg_edge_kind_code, function_stop_kind_code, register_state_point_code,
  call_kind_code, call_result_code,
}
use viy.Facts.Schema.{
  CodeRegionFact, DispatchMapFact, CfgCandidateFact, FunctionOutcomeFact, RegisterValueFact,
  CallObservationFact, FactPayload, code_target, branch_reachability, memory_access, memory_value,
  string_candidate, function_candidate, function_trait, code_region, dispatch_map, cfg_candidate,
  function_outcome, register_value, call_observation, fact_kind,
}
use viy.Facts.Bytes.{FactCodecLimits, write_bool, write_be, write_i64, write_blob, write_optional}
use viy.Facts.BytesRead.{read_bool-write_bool, read_u64-write_be, read_sized-write_blob}
use viy.Facts.Encode.{write_cases, write_call_values, payload_body}
use viy.Facts.Decode.{
  read_code_region, read_dispatch_map, read_cfg_candidate, read_function_outcome,
  read_register_value, read_call_observation, decode_payload_body,
}
use viy.Facts.Fits.{PayloadFits}
use viy.Facts.EnumRead.{
  read_reachability, read_code_region_kind, read_cfg_edge_kind, read_function_stop_kind,
  read_register_state_point, read_call_kind, read_call_result,
}
use viy.Facts.ItemRead.{
  read_optional_u64, read_optional_i64, read_cases-write_cases, read_call_values-write_call_values,
}
use viy.Facts.BodyRead.{
  read_code_target_lem, read_branch_reachability_lem, read_memory_access_lem, read_memory_value_lem,
  read_string_candidate_lem, read_function_candidate_lem, read_function_trait_lem,
}

pub read_code_region_lem :
    (limits : FactCodecLimits) (f : CodeRegionFact)
    → PayloadFits limits (code_region f)
    → read_code_region limits (payload_body (code_region f)) ≡ some (code_region f, [])
unfolding read_code_region payload_body PayloadFits
read_code_region_lem limits f (h0, h1) =
    rw
      (
        read_u64-write_be f.start (write_be 8 f.end (code_region_kind_code f.kind ∷ [])) h0,
        read_u64-write_be f.end (code_region_kind_code f.kind ∷ []) h1,
        read_code_region_kind f.kind [],
      )
      refl

pub read_dispatch_map_lem :
    (limits : FactCodecLimits) (f : DispatchMapFact)
    → PayloadFits limits (dispatch_map f)
    → read_dispatch_map limits (payload_body (dispatch_map f)) ≡ some (dispatch_map f, [])
unfolding read_dispatch_map payload_body PayloadFits
read_dispatch_map_lem limits f (h0, h1, h2) =
    rw
      (
        read_u64-write_be f.site
            (write_be 4 (length f.cases) (
              write_cases f.cases
                (write_optional (write_be 8) f.default_target (write_bool f.complete []))))
            h0,
        read_cases-write_cases limits f.cases
            (write_optional (write_be 8) f.default_target (write_bool f.complete [])) h1,
        read_optional_u64 f.default_target (write_bool f.complete []) h2,
        read_bool-write_bool f.complete [],
      )
      refl

pub read_cfg_candidate_lem :
    (limits : FactCodecLimits) (f : CfgCandidateFact)
    → PayloadFits limits (cfg_candidate f)
    → read_cfg_candidate limits (payload_body (cfg_candidate f)) ≡ some (cfg_candidate f, [])
unfolding read_cfg_candidate payload_body PayloadFits
read_cfg_candidate_lem limits f (h0, h1) =
    rw
      (
        read_u64-write_be f.from
            (write_be 8 f.to (cfg_edge_kind_code f.kind ∷ (reachability_code f.state ∷ []))) h0,
        read_u64-write_be f.to (cfg_edge_kind_code f.kind ∷ (reachability_code f.state ∷ [])) h1,
        read_cfg_edge_kind f.kind (reachability_code f.state ∷ []),
        read_reachability f.state [],
      )
      refl

pub read_function_outcome_lem :
    (limits : FactCodecLimits) (f : FunctionOutcomeFact)
    → PayloadFits limits (function_outcome f)
    → read_function_outcome limits (payload_body (function_outcome f))
      ≡ some (function_outcome f, [])
unfolding read_function_outcome payload_body PayloadFits
read_function_outcome_lem limits f (h0, h2, h3, h4) =
    rw
      (
        read_u64-write_be f.function
            (function_stop_kind_code f.stop
              ∷ (write_optional (write_be 8) f.stop_pc (
                  write_optional write_i64 f.stack_delta
                    (write_optional (write_be 8) f.instruction_count []))))
            h0,
        read_function_stop_kind f.stop (
            write_optional (write_be 8) f.stop_pc (
              write_optional write_i64 f.stack_delta
                (write_optional (write_be 8) f.instruction_count []))),
        read_optional_u64 f.stop_pc
            (write_optional write_i64 f.stack_delta
              (write_optional (write_be 8) f.instruction_count []))
            h2,
        read_optional_i64 f.stack_delta (write_optional (write_be 8) f.instruction_count []) h3,
        read_optional_u64 f.instruction_count [] h4,
      )
      refl

pub read_register_value_lem :
    (limits : FactCodecLimits) (f : RegisterValueFact)
    → PayloadFits limits (register_value f)
    → read_register_value limits (payload_body (register_value f)) ≡ some (register_value f, [])
unfolding read_register_value payload_body PayloadFits
read_register_value_lem limits f (h0, h2, h3) =
    rw
      (
        read_u64-write_be f.instruction
            (register_state_point_code f.point ∷ (write_blob f.register_id (write_blob f.bytes [])))
            h0,
        read_register_state_point f.point (write_blob f.register_id (write_blob f.bytes [])),
        read_sized-write_blob limits.max_string_bytes f.register_id (write_blob f.bytes []) h2.0
            h2.1,
        read_sized-write_blob limits.max_fact_bytes f.bytes [] h3.0 h3.1,
      )
      refl

pub read_call_observation_lem :
    (limits : FactCodecLimits) (f : CallObservationFact)
    → PayloadFits limits (call_observation f)
    → read_call_observation limits (payload_body (call_observation f))
      ≡ some (call_observation f, [])
unfolding read_call_observation payload_body PayloadFits
read_call_observation_lem limits f (h0, h1, h4, h5) =
    rw
      (
        read_u64-write_be f.source
            (write_optional (write_be 8) f.target (
              call_kind_code f.kind
              ∷ (call_result_code f.result
                  ∷ (write_be 4 (length f.arguments) (
                      write_call_values f.arguments
                        (write_be 4 (length f.returns) (write_call_values f.returns [])))))))
            h0,
        read_optional_u64 f.target
            (call_kind_code f.kind
              ∷ (call_result_code f.result
                  ∷ (write_be 4 (length f.arguments) (
                      write_call_values f.arguments
                        (write_be 4 (length f.returns) (write_call_values f.returns []))))))
            h1,
        read_call_kind f.kind (
            call_result_code f.result
            ∷ (write_be 4 (length f.arguments) (
                write_call_values f.arguments
                  (write_be 4 (length f.returns) (write_call_values f.returns []))))),
        read_call_result f.result (
            write_be 4 (length f.arguments) (
              write_call_values f.arguments
                (write_be 4 (length f.returns) (write_call_values f.returns [])))),
        read_call_values-write_call_values limits f.arguments
            (write_be 4 (length f.returns) (write_call_values f.returns [])) h4,
        read_call_values-write_call_values limits f.returns [] h5,
      )
      refl

-- The body of a payload that the canonical bytes can hold is read back whole.
pub decode_payload_body-payload_body :
    (limits : FactCodecLimits) (payload : FactPayload)
    → PayloadFits limits payload
    → decode_payload_body limits (fact_kind payload) (payload_body payload) ≡ some (payload, [])
unfolding decode_payload_body fact_kind
decode_payload_body-payload_body limits (code_target f) h = read_code_target_lem limits f h
decode_payload_body-payload_body limits (branch_reachability f) h =
    read_branch_reachability_lem limits f h
decode_payload_body-payload_body limits (memory_access f) h = read_memory_access_lem limits f h
decode_payload_body-payload_body limits (memory_value f) h = read_memory_value_lem limits f h
decode_payload_body-payload_body limits (string_candidate f) h =
    read_string_candidate_lem limits f h
decode_payload_body-payload_body limits (function_candidate f) h =
    read_function_candidate_lem limits f h
decode_payload_body-payload_body limits (function_trait f) h = read_function_trait_lem limits f h
decode_payload_body-payload_body limits (code_region f) h = read_code_region_lem limits f h
decode_payload_body-payload_body limits (dispatch_map f) h = read_dispatch_map_lem limits f h
decode_payload_body-payload_body limits (cfg_candidate f) h = read_cfg_candidate_lem limits f h
decode_payload_body-payload_body limits (function_outcome f) h =
    read_function_outcome_lem limits f h
decode_payload_body-payload_body limits (register_value f) h = read_register_value_lem limits f h
decode_payload_body-payload_body limits (call_observation f) h =
    read_call_observation_lem limits f h
