-- ===== src/Facts/EnumRead.antt =====
-- Reading an enumeration that was written (src/analysis_facts.cpp).
use viy.Base.{ℕ, ◌≤◌, ◌≡◌, ap, ◌∙◌, some, List, ◌∷◌, arith, get_elem?}
use viy.Facts.Enums.{
  CodeTargetKind, code_target_kind_code, code_target_kind_list, Reachability, reachability_code,
  reachability_list, MemoryAccessKind, memory_access_kind_code, memory_access_kind_list,
  StringEncoding, string_encoding_code, string_encoding_list, FunctionCandidateKind,
  function_candidate_kind_code, function_candidate_kind_list, FunctionTraitKind,
  function_trait_kind_code, function_trait_kind_list, TraitValueKind, trait_value_kind_code,
  trait_value_kind_list,
}
use viy.Facts.Kinds.{
  CodeRegionKind, code_region_kind_code, code_region_kind_list, CfgEdgeKind, cfg_edge_kind_code,
  cfg_edge_kind_list, FunctionStopKind, function_stop_kind_code, function_stop_kind_list,
  RegisterStatePoint, register_state_point_code, register_state_point_list, CallKind,
  call_kind_code, call_kind_list, CallResult, call_result_code, call_result_list,
}
use viy.Facts.Codes.{
  code_target_kind_list_lem, reachability_list_lem, memory_access_kind_list_lem,
  string_encoding_list_lem, function_candidate_kind_list_lem, function_trait_kind_list_lem,
  trait_value_kind_list_lem, code_region_kind_list_lem, cfg_edge_kind_list_lem,
  function_stop_kind_list_lem, register_state_point_list_lem, call_kind_list_lem,
  call_result_list_lem,
}
use viy.Facts.Bytes.{read_enum}
use viy.Facts.BytesRead.{read_enum-code}
use viy.Facts.Enums.{read_access, write_access, execute_access, read_write_access}
use viy.Facts.Kinds.{
  before_instruction, after_instruction, function_entry, function_exit, call_entry, call_return,
}

pub read_code_target_kind :
    (k : CodeTargetKind) (tail : List ℕ)
    → read_enum code_target_kind_list 0 (code_target_kind_code k ∷ tail) ≡ some (k, tail)
read_code_target_kind k tail =
    read_enum-code code_target_kind_list 0 (code_target_kind_code k) k tail (omega arith)
      (ap (get_elem? code_target_kind_list) (omega arith) ∙ code_target_kind_list_lem k)

pub read_reachability :
    (k : Reachability) (tail : List ℕ)
    → read_enum reachability_list 0 (reachability_code k ∷ tail) ≡ some (k, tail)
read_reachability k tail =
    read_enum-code reachability_list 0 (reachability_code k) k tail (omega arith)
      (ap (get_elem? reachability_list) (omega arith) ∙ reachability_list_lem k)

memory_access_kind_code_pos : (k : MemoryAccessKind) → 1 ≤ memory_access_kind_code k
unfolding memory_access_kind_code
memory_access_kind_code_pos read_access = omega arith
memory_access_kind_code_pos write_access = omega arith
memory_access_kind_code_pos execute_access = omega arith
memory_access_kind_code_pos read_write_access = omega arith

pub read_memory_access_kind :
    (k : MemoryAccessKind) (tail : List ℕ)
    → read_enum memory_access_kind_list 1 (memory_access_kind_code k ∷ tail) ≡ some (k, tail)
unfolding memory_access_kind_code
read_memory_access_kind k tail =
    read_enum-code memory_access_kind_list 1 (memory_access_kind_code k) k tail
      (memory_access_kind_code_pos k) (memory_access_kind_list_lem k)

pub read_string_encoding :
    (k : StringEncoding) (tail : List ℕ)
    → read_enum string_encoding_list 0 (string_encoding_code k ∷ tail) ≡ some (k, tail)
read_string_encoding k tail =
    read_enum-code string_encoding_list 0 (string_encoding_code k) k tail (omega arith)
      (ap (get_elem? string_encoding_list) (omega arith) ∙ string_encoding_list_lem k)

pub read_function_candidate_kind :
    (k : FunctionCandidateKind) (tail : List ℕ)
    → read_enum function_candidate_kind_list 0 (function_candidate_kind_code k ∷ tail)
      ≡ some (k, tail)
read_function_candidate_kind k tail =
    read_enum-code function_candidate_kind_list 0 (function_candidate_kind_code k) k tail
      (omega arith)
      (ap (get_elem? function_candidate_kind_list) (omega arith)
        ∙ function_candidate_kind_list_lem k)

pub read_function_trait_kind :
    (k : FunctionTraitKind) (tail : List ℕ)
    → read_enum function_trait_kind_list 0 (function_trait_kind_code k ∷ tail) ≡ some (k, tail)
read_function_trait_kind k tail =
    read_enum-code function_trait_kind_list 0 (function_trait_kind_code k) k tail (omega arith)
      (ap (get_elem? function_trait_kind_list) (omega arith) ∙ function_trait_kind_list_lem k)

pub read_trait_value_kind :
    (k : TraitValueKind) (tail : List ℕ)
    → read_enum trait_value_kind_list 0 (trait_value_kind_code k ∷ tail) ≡ some (k, tail)
read_trait_value_kind k tail =
    read_enum-code trait_value_kind_list 0 (trait_value_kind_code k) k tail (omega arith)
      (ap (get_elem? trait_value_kind_list) (omega arith) ∙ trait_value_kind_list_lem k)

pub read_code_region_kind :
    (k : CodeRegionKind) (tail : List ℕ)
    → read_enum code_region_kind_list 0 (code_region_kind_code k ∷ tail) ≡ some (k, tail)
read_code_region_kind k tail =
    read_enum-code code_region_kind_list 0 (code_region_kind_code k) k tail (omega arith)
      (ap (get_elem? code_region_kind_list) (omega arith) ∙ code_region_kind_list_lem k)

pub read_cfg_edge_kind :
    (k : CfgEdgeKind) (tail : List ℕ)
    → read_enum cfg_edge_kind_list 0 (cfg_edge_kind_code k ∷ tail) ≡ some (k, tail)
read_cfg_edge_kind k tail =
    read_enum-code cfg_edge_kind_list 0 (cfg_edge_kind_code k) k tail (omega arith)
      (ap (get_elem? cfg_edge_kind_list) (omega arith) ∙ cfg_edge_kind_list_lem k)

pub read_function_stop_kind :
    (k : FunctionStopKind) (tail : List ℕ)
    → read_enum function_stop_kind_list 0 (function_stop_kind_code k ∷ tail) ≡ some (k, tail)
read_function_stop_kind k tail =
    read_enum-code function_stop_kind_list 0 (function_stop_kind_code k) k tail (omega arith)
      (ap (get_elem? function_stop_kind_list) (omega arith) ∙ function_stop_kind_list_lem k)

register_state_point_code_pos : (k : RegisterStatePoint) → 1 ≤ register_state_point_code k
unfolding register_state_point_code
register_state_point_code_pos before_instruction = omega arith
register_state_point_code_pos after_instruction = omega arith
register_state_point_code_pos function_entry = omega arith
register_state_point_code_pos function_exit = omega arith
register_state_point_code_pos call_entry = omega arith
register_state_point_code_pos call_return = omega arith

pub read_register_state_point :
    (k : RegisterStatePoint) (tail : List ℕ)
    → read_enum register_state_point_list 1 (register_state_point_code k ∷ tail) ≡ some (k, tail)
unfolding register_state_point_code
read_register_state_point k tail =
    read_enum-code register_state_point_list 1 (register_state_point_code k) k tail
      (register_state_point_code_pos k) (register_state_point_list_lem k)

pub read_call_kind :
    (k : CallKind) (tail : List ℕ)
    → read_enum call_kind_list 0 (call_kind_code k ∷ tail) ≡ some (k, tail)
read_call_kind k tail =
    read_enum-code call_kind_list 0 (call_kind_code k) k tail (omega arith)
      (ap (get_elem? call_kind_list) (omega arith) ∙ call_kind_list_lem k)

pub read_call_result :
    (k : CallResult) (tail : List ℕ)
    → read_enum call_result_list 0 (call_result_code k ∷ tail) ≡ some (k, tail)
read_call_result k tail =
    read_enum-code call_result_list 0 (call_result_code k) k tail (omega arith)
      (ap (get_elem? call_result_list) (omega arith) ∙ call_result_list_lem k)
