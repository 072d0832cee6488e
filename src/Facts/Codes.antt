-- ===== src/Facts/Codes.antt =====
-- Each stored number finds its value in the list (src/analysis_facts.hpp).
use viy.Base.{◌≡◌, refl, ◌-◌, some, get_elem?}
use viy.Facts.Enums.{
  FactKind, fact_kind_code, fact_kind_list, code_target_kind, branch_reachability_kind,
  memory_access_kind, memory_value_kind, string_candidate_kind, function_candidate_kind,
  function_trait_kind, code_region_kind, dispatch_map_kind, cfg_candidate_kind,
  function_outcome_kind, register_value_kind, call_observation_kind, ProofKind, proof_kind_code,
  proof_kind_list, unknown_proof, observed, static_proof, symbolic_proof, cross_run_corroboration,
  heuristic, imported, user_asserted, CodeTargetKind, code_target_kind_code, code_target_kind_list,
  unknown_target, call_target, jump_target, fallthrough_target, return_target, table_entry,
  exception_target, Reachability, reachability_code, reachability_list, not_observed, reached,
  proven_unreachable, MemoryAccessKind, memory_access_kind_code, memory_access_kind_list,
  read_access, write_access, execute_access, read_write_access, StringEncoding,
  string_encoding_code, string_encoding_list, bytes_encoding, ascii_encoding, utf8_encoding,
  utf16_le_encoding, utf16_be_encoding, utf32_le_encoding, utf32_be_encoding, FunctionCandidateKind,
  function_candidate_kind_code, function_candidate_kind_list, other_candidate, entry_point,
  call_target_candidate, prologue, orphan_chunk, exception_handler, export_candidate,
  user_asserted_candidate, FunctionTraitKind, function_trait_kind_code, function_trait_kind_list,
  other_trait, returns_trait, no_return_trait, stack_delta_trait, argument_register,
  return_constant, wrapper_target, leaf, thunk, calling_convention, TraitValueKind,
  trait_value_kind_code, trait_value_kind_list, no_value, signed_kind, unsigned_kind, boolean_kind,
  text_kind,
}
use viy.Facts.Kinds.{
  CodeRegionKind, code_region_kind_code, code_region_kind_list, unknown_region, code_bytes,
  data_bytes, mixed_bytes, padding_bytes, CfgEdgeKind, cfg_edge_kind_code, cfg_edge_kind_list,
  unknown_edge, fallthrough_edge, true_branch, false_branch, call_edge, return_edge, exception_edge,
  indirect_edge, FunctionStopKind, function_stop_kind_code, function_stop_kind_list, unknown_stop,
  returned_stop, halted, faulted_stop, timed_out_stop, budget_exhausted, escaped_function,
  terminated_process, RegisterStatePoint, register_state_point_code, register_state_point_list,
  before_instruction, after_instruction, function_entry, function_exit, call_entry, call_return,
  CallKind, call_kind_code, call_kind_list, unknown_call, plain_call, tail_call, system_call,
  imported_call, CallResult, call_result_code, call_result_list, unknown_result, returned_result,
  no_return_result, faulted_result, timed_out_result,
}

pub fact_kind_list_lem : (k : FactKind) → get_elem? fact_kind_list (fact_kind_code k - 1) ≡ some k
unfolding fact_kind_code
fact_kind_list_lem code_target_kind = refl
fact_kind_list_lem branch_reachability_kind = refl
fact_kind_list_lem memory_access_kind = refl
fact_kind_list_lem memory_value_kind = refl
fact_kind_list_lem string_candidate_kind = refl
fact_kind_list_lem function_candidate_kind = refl
fact_kind_list_lem function_trait_kind = refl
fact_kind_list_lem code_region_kind = refl
fact_kind_list_lem dispatch_map_kind = refl
fact_kind_list_lem cfg_candidate_kind = refl
fact_kind_list_lem function_outcome_kind = refl
fact_kind_list_lem register_value_kind = refl
fact_kind_list_lem call_observation_kind = refl

pub proof_kind_list_lem :
    (k : ProofKind) → get_elem? proof_kind_list (proof_kind_code k - 0) ≡ some k
unfolding proof_kind_code
proof_kind_list_lem unknown_proof = refl
proof_kind_list_lem observed = refl
proof_kind_list_lem static_proof = refl
proof_kind_list_lem symbolic_proof = refl
proof_kind_list_lem cross_run_corroboration = refl
proof_kind_list_lem heuristic = refl
proof_kind_list_lem imported = refl
proof_kind_list_lem user_asserted = refl

pub code_target_kind_list_lem :
    (k : CodeTargetKind) → get_elem? code_target_kind_list (code_target_kind_code k - 0) ≡ some k
unfolding code_target_kind_code
code_target_kind_list_lem unknown_target = refl
code_target_kind_list_lem call_target = refl
code_target_kind_list_lem jump_target = refl
code_target_kind_list_lem fallthrough_target = refl
code_target_kind_list_lem return_target = refl
code_target_kind_list_lem table_entry = refl
code_target_kind_list_lem exception_target = refl

pub reachability_list_lem :
    (k : Reachability) → get_elem? reachability_list (reachability_code k - 0) ≡ some k
unfolding reachability_code
reachability_list_lem not_observed = refl
reachability_list_lem reached = refl
reachability_list_lem proven_unreachable = refl

pub memory_access_kind_list_lem :
    (k : MemoryAccessKind)
    → get_elem? memory_access_kind_list (memory_access_kind_code k - 1) ≡ some k
unfolding memory_access_kind_code
memory_access_kind_list_lem read_access = refl
memory_access_kind_list_lem write_access = refl
memory_access_kind_list_lem execute_access = refl
memory_access_kind_list_lem read_write_access = refl

pub string_encoding_list_lem :
    (k : StringEncoding) → get_elem? string_encoding_list (string_encoding_code k - 0) ≡ some k
unfolding string_encoding_code
string_encoding_list_lem bytes_encoding = refl
string_encoding_list_lem ascii_encoding = refl
string_encoding_list_lem utf8_encoding = refl
string_encoding_list_lem utf16_le_encoding = refl
string_encoding_list_lem utf16_be_encoding = refl
string_encoding_list_lem utf32_le_encoding = refl
string_encoding_list_lem utf32_be_encoding = refl

pub function_candidate_kind_list_lem :
    (k : FunctionCandidateKind)
    → get_elem? function_candidate_kind_list (function_candidate_kind_code k - 0) ≡ some k
unfolding function_candidate_kind_code
function_candidate_kind_list_lem other_candidate = refl
function_candidate_kind_list_lem entry_point = refl
function_candidate_kind_list_lem call_target_candidate = refl
function_candidate_kind_list_lem prologue = refl
function_candidate_kind_list_lem orphan_chunk = refl
function_candidate_kind_list_lem exception_handler = refl
function_candidate_kind_list_lem export_candidate = refl
function_candidate_kind_list_lem user_asserted_candidate = refl

pub function_trait_kind_list_lem :
    (k : FunctionTraitKind)
    → get_elem? function_trait_kind_list (function_trait_kind_code k - 0) ≡ some k
unfolding function_trait_kind_code
function_trait_kind_list_lem other_trait = refl
function_trait_kind_list_lem returns_trait = refl
function_trait_kind_list_lem no_return_trait = refl
function_trait_kind_list_lem stack_delta_trait = refl
function_trait_kind_list_lem argument_register = refl
function_trait_kind_list_lem return_constant = refl
function_trait_kind_list_lem wrapper_target = refl
function_trait_kind_list_lem leaf = refl
function_trait_kind_list_lem thunk = refl
function_trait_kind_list_lem calling_convention = refl

pub trait_value_kind_list_lem :
    (k : TraitValueKind) → get_elem? trait_value_kind_list (trait_value_kind_code k - 0) ≡ some k
unfolding trait_value_kind_code
trait_value_kind_list_lem no_value = refl
trait_value_kind_list_lem signed_kind = refl
trait_value_kind_list_lem unsigned_kind = refl
trait_value_kind_list_lem boolean_kind = refl
trait_value_kind_list_lem text_kind = refl

pub code_region_kind_list_lem :
    (k : CodeRegionKind) → get_elem? code_region_kind_list (code_region_kind_code k - 0) ≡ some k
unfolding code_region_kind_code
code_region_kind_list_lem unknown_region = refl
code_region_kind_list_lem code_bytes = refl
code_region_kind_list_lem data_bytes = refl
code_region_kind_list_lem mixed_bytes = refl
code_region_kind_list_lem padding_bytes = refl

pub cfg_edge_kind_list_lem :
    (k : CfgEdgeKind) → get_elem? cfg_edge_kind_list (cfg_edge_kind_code k - 0) ≡ some k
unfolding cfg_edge_kind_code
cfg_edge_kind_list_lem unknown_edge = refl
cfg_edge_kind_list_lem fallthrough_edge = refl
cfg_edge_kind_list_lem true_branch = refl
cfg_edge_kind_list_lem false_branch = refl
cfg_edge_kind_list_lem call_edge = refl
cfg_edge_kind_list_lem return_edge = refl
cfg_edge_kind_list_lem exception_edge = refl
cfg_edge_kind_list_lem indirect_edge = refl

pub function_stop_kind_list_lem :
    (k : FunctionStopKind)
    → get_elem? function_stop_kind_list (function_stop_kind_code k - 0) ≡ some k
unfolding function_stop_kind_code
function_stop_kind_list_lem unknown_stop = refl
function_stop_kind_list_lem returned_stop = refl
function_stop_kind_list_lem halted = refl
function_stop_kind_list_lem faulted_stop = refl
function_stop_kind_list_lem timed_out_stop = refl
function_stop_kind_list_lem budget_exhausted = refl
function_stop_kind_list_lem escaped_function = refl
function_stop_kind_list_lem terminated_process = refl

pub register_state_point_list_lem :
    (k : RegisterStatePoint)
    → get_elem? register_state_point_list (register_state_point_code k - 1) ≡ some k
unfolding register_state_point_code
register_state_point_list_lem before_instruction = refl
register_state_point_list_lem after_instruction = refl
register_state_point_list_lem function_entry = refl
register_state_point_list_lem function_exit = refl
register_state_point_list_lem call_entry = refl
register_state_point_list_lem call_return = refl

pub call_kind_list_lem : (k : CallKind) → get_elem? call_kind_list (call_kind_code k - 0) ≡ some k
unfolding call_kind_code
call_kind_list_lem unknown_call = refl
call_kind_list_lem plain_call = refl
call_kind_list_lem tail_call = refl
call_kind_list_lem system_call = refl
call_kind_list_lem imported_call = refl

pub call_result_list_lem :
    (k : CallResult) → get_elem? call_result_list (call_result_code k - 0) ≡ some k
unfolding call_result_code
call_result_list_lem unknown_result = refl
call_result_list_lem returned_result = refl
call_result_list_lem no_return_result = refl
call_result_list_lem faulted_result = refl
call_result_list_lem timed_out_result = refl
