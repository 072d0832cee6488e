-- ===== src/Facts/Decode.antt =====
-- A payload read from its canonical bytes (decode_payload_body of src/analysis_facts.cpp).
use viy.Base.{ℕ, zero, suc, Option, some, List, [], ◌∷◌}
use viy.Facts.Enums.{
  code_target_kind_list, reachability_list, memory_access_kind_list, string_encoding_list,
  function_candidate_kind_list, function_trait_kind_list, trait_value_kind_list,
}
use viy.Facts.Kinds.{
  code_region_kind_list, cfg_edge_kind_list, function_stop_kind_list, register_state_point_list,
  call_kind_list, call_result_list,
}
use viy.Facts.Enums.{
  FactKind, code_target_kind, branch_reachability_kind, memory_access_kind, memory_value_kind,
  string_candidate_kind, function_candidate_kind, function_trait_kind, code_region_kind,
  dispatch_map_kind, cfg_candidate_kind, function_outcome_kind, register_value_kind,
  call_observation_kind,
}
use viy.Facts.Schema.{
  DispatchCase, CallValue, FactPayload, code_target, branch_reachability, memory_access,
  memory_value, string_candidate, function_candidate, function_trait, code_region, dispatch_map,
  cfg_candidate, function_outcome, register_value, call_observation,
}
use viy.Facts.Bytes.{
  ◌>>=◌, FactCodecLimits, read_bool, read_u32, read_u64, read_i64, read_sized, read_count,
  read_optional, read_enum,
}

-- The loop that reads `count` items.
unfoldable pub read_items {ℓ} :
    {A : Type ℓ} → (List ℕ → Option (A × List ℕ)) → ℕ → List ℕ → Option (List A × List ℕ)
read_items read zero bytes = some ([], bytes)
read_items read (suc count) bytes = do
  (item, rest) ← read bytes
  (items, after) ← read_items read count rest
  some (item ∷ items, after)

unfoldable pub read_case : List ℕ → Option (DispatchCase × List ℕ)
unfolding read_optional
read_case bytes = do
  (selector, b1) ← read_optional read_u64 bytes
  (target, b2) ← read_u64 b1
  some (record { selector = selector; target = target }, b2)

unfoldable pub read_cases : FactCodecLimits → List ℕ → Option (List DispatchCase × List ℕ)
unfolding read_count read_items read_case
read_cases limits bytes = do
  (count, rest) ← read_count limits bytes
  read_items read_case count rest

unfoldable pub read_call_value : FactCodecLimits → List ℕ → Option (CallValue × List ℕ)
unfolding read_sized
read_call_value limits bytes = do
  (ordinal, b1) ← read_u32 bytes
  (location, b2) ← read_sized limits.max_string_bytes b1
  (bytes, b3) ← read_sized limits.max_fact_bytes b2
  some (record { ordinal = ordinal; location = location; bytes = bytes }, b3)

unfoldable pub read_call_values : FactCodecLimits → List ℕ → Option (List CallValue × List ℕ)
unfolding read_count read_items read_call_value
read_call_values limits bytes = do
  (count, rest) ← read_count limits bytes
  read_items (read_call_value limits) count rest

unfoldable pub read_code_target : FactCodecLimits → List ℕ → Option (FactPayload × List ℕ)
unfolding read_enum read_bool
read_code_target limits b0 = do
  (from, b1) ← read_u64 b0
  (target, b2) ← read_u64 b1
  (kind, b3) ← read_enum code_target_kind_list 0 b2
  (unique, b4) ← read_bool b3
  some (code_target (record { from = from; target = target; kind = kind; unique = unique }), b4)

unfoldable pub read_branch_reachability : FactCodecLimits → List ℕ → Option (FactPayload × List ℕ)
unfolding read_enum
read_branch_reachability limits b0 = do
  (branch, b1) ← read_u64 b0
  (successor, b2) ← read_u64 b1
  (state, b3) ← read_enum reachability_list 0 b2
  some (branch_reachability (record { branch = branch; successor = successor; state = state }), b3)

unfoldable pub read_memory_access : FactCodecLimits → List ℕ → Option (FactPayload × List ℕ)
unfolding read_enum
read_memory_access limits b0 = do
  (instruction, b1) ← read_u64 b0
  (address, b2) ← read_u64 b1
  (size, b3) ← read_u32 b2
  (kind, b4) ← read_enum memory_access_kind_list 1 b3
  some (
    memory_access
        (record { instruction = instruction; address = address; size = size; kind = kind }),
    b4,
  )

unfoldable pub read_memory_value : FactCodecLimits → List ℕ → Option (FactPayload × List ℕ)
unfolding read_enum read_sized
read_memory_value limits b0 = do
  (instruction, b1) ← read_u64 b0
  (address, b2) ← read_u64 b1
  (kind, b3) ← read_enum memory_access_kind_list 1 b2
  (bytes, b4) ← read_sized limits.max_fact_bytes b3
  some (
    memory_value
        (record { instruction = instruction; address = address; kind = kind; bytes = bytes }),
    b4,
  )

unfoldable pub read_string_candidate : FactCodecLimits → List ℕ → Option (FactPayload × List ℕ)
unfolding read_enum read_sized read_bool
read_string_candidate limits b0 = do
  (address, b1) ← read_u64 b0
  (encoding, b2) ← read_enum string_encoding_list 0 b1
  (bytes, b3) ← read_sized limits.max_fact_bytes b2
  (decoded, b4) ← read_sized limits.max_string_bytes b3
  (null_terminated, b5) ← read_bool b4
  some (
    string_candidate (record {
      address = address;
      encoding = encoding;
      bytes = bytes;
      decoded = decoded;
      null_terminated = null_terminated;
    }),
    b5,
  )

unfoldable pub read_function_candidate : FactCodecLimits → List ℕ → Option (FactPayload × List ℕ)
unfolding read_optional read_enum
read_function_candidate limits b0 = do
  (entry, b1) ← read_u64 b0
  (end, b2) ← read_optional read_u64 b1
  (kind, b3) ← read_enum function_candidate_kind_list 0 b2
  some (function_candidate (record { entry = entry; end = end; kind = kind }), b3)

unfoldable pub read_function_trait : FactCodecLimits → List ℕ → Option (FactPayload × List ℕ)
unfolding read_enum read_i64 read_bool read_sized
read_function_trait limits b0 = do
  (function, b1) ← read_u64 b0
  (trait, b2) ← read_enum function_trait_kind_list 0 b1
  (value_kind, b3) ← read_enum trait_value_kind_list 0 b2
  (signed_value, b4) ← read_i64 b3
  (unsigned_value, b5) ← read_u64 b4
  (boolean_value, b6) ← read_bool b5
  (text_value, b7) ← read_sized limits.max_string_bytes b6
  some (
    function_trait (record {
      function = function;
      trait = trait;
      value = record {
        kind = value_kind;
        signed_value = signed_value;
        unsigned_value = unsigned_value;
        boolean_value = boolean_value;
        text_value = text_value;
      };
    }),
    b7,
  )

unfoldable pub read_code_region : FactCodecLimits → List ℕ → Option (FactPayload × List ℕ)
unfolding read_enum
read_code_region limits b0 = do
  (start, b1) ← read_u64 b0
  (end, b2) ← read_u64 b1
  (kind, b3) ← read_enum code_region_kind_list 0 b2
  some (code_region (record { start = start; end = end; kind = kind }), b3)

unfoldable pub read_dispatch_map : FactCodecLimits → List ℕ → Option (FactPayload × List ℕ)
unfolding read_cases read_optional read_bool
read_dispatch_map limits b0 = do
  (site, b1) ← read_u64 b0
  (cases, b2) ← read_cases limits b1
  (default_target, b3) ← read_optional read_u64 b2
  (complete, b4) ← read_bool b3
  some (
    dispatch_map (record {
      site = site;
      cases = cases;
      default_target = default_target;
      complete = complete;
    }),
    b4,
  )

unfoldable pub read_cfg_candidate : FactCodecLimits → List ℕ → Option (FactPayload × List ℕ)
unfolding read_enum
read_cfg_candidate limits b0 = do
  (from, b1) ← read_u64 b0
  (to, b2) ← read_u64 b1
  (kind, b3) ← read_enum cfg_edge_kind_list 0 b2
  (state, b4) ← read_enum reachability_list 0 b3
  some (cfg_candidate (record { from = from; to = to; kind = kind; state = state }), b4)

unfoldable pub read_function_outcome : FactCodecLimits → List ℕ → Option (FactPayload × List ℕ)
unfolding read_enum read_optional read_i64
read_function_outcome limits b0 = do
  (function, b1) ← read_u64 b0
  (stop, b2) ← read_enum function_stop_kind_list 0 b1
  (stop_pc, b3) ← read_optional read_u64 b2
  (stack_delta, b4) ← read_optional read_i64 b3
  (instruction_count, b5) ← read_optional read_u64 b4
  some (
    function_outcome (record {
      function = function;
      stop = stop;
      stop_pc = stop_pc;
      stack_delta = stack_delta;
      instruction_count = instruction_count;
    }),
    b5,
  )

unfoldable pub read_register_value : FactCodecLimits → List ℕ → Option (FactPayload × List ℕ)
unfolding read_enum read_sized
read_register_value limits b0 = do
  (instruction, b1) ← read_u64 b0
  (point, b2) ← read_enum register_state_point_list 1 b1
  (register_id, b3) ← read_sized limits.max_string_bytes b2
  (bytes, b4) ← read_sized limits.max_fact_bytes b3
  some (
    register_value (record {
      instruction = instruction;
      point = point;
      register_id = register_id;
      bytes = bytes;
    }),
    b4,
  )

unfoldable pub read_call_observation : FactCodecLimits → List ℕ → Option (FactPayload × List ℕ)
unfolding read_optional read_enum read_call_values
read_call_observation limits b0 = do
  (source, b1) ← read_u64 b0
  (target, b2) ← read_optional read_u64 b1
  (kind, b3) ← read_enum call_kind_list 0 b2
  (result, b4) ← read_enum call_result_list 0 b3
  (arguments, b5) ← read_call_values limits b4
  (returns, b6) ← read_call_values limits b5
  some (
    call_observation (record {
      source = source;
      target = target;
      kind = kind;
      result = result;
      arguments = arguments;
      returns = returns;
    }),
    b6,
  )

unfoldable pub decode_payload_body :
    FactCodecLimits → FactKind → List ℕ → Option (FactPayload × List ℕ)
unfolding read_code_target read_branch_reachability read_memory_access read_memory_value
    read_string_candidate read_function_candidate read_function_trait read_code_region
    read_dispatch_map read_cfg_candidate read_function_outcome read_register_value
    read_call_observation
decode_payload_body limits code_target_kind bytes = read_code_target limits bytes
decode_payload_body limits branch_reachability_kind bytes = read_branch_reachability limits bytes
decode_payload_body limits memory_access_kind bytes = read_memory_access limits bytes
decode_payload_body limits memory_value_kind bytes = read_memory_value limits bytes
decode_payload_body limits string_candidate_kind bytes = read_string_candidate limits bytes
decode_payload_body limits function_candidate_kind bytes = read_function_candidate limits bytes
decode_payload_body limits function_trait_kind bytes = read_function_trait limits bytes
decode_payload_body limits code_region_kind bytes = read_code_region limits bytes
decode_payload_body limits dispatch_map_kind bytes = read_dispatch_map limits bytes
decode_payload_body limits cfg_candidate_kind bytes = read_cfg_candidate limits bytes
decode_payload_body limits function_outcome_kind bytes = read_function_outcome limits bytes
decode_payload_body limits register_value_kind bytes = read_register_value limits bytes
decode_payload_body limits call_observation_kind bytes = read_call_observation limits bytes
