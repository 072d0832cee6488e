-- ===== src/Facts/Kinds.antt =====
-- The enumerations of regions, edges, stops, registers and calls, with their stored numbers
-- (src/analysis_facts.hpp).
use viy.Base.{ℕ, List, [], ◌∷◌}

pub data CodeRegionKind : Type 0 where
  unknown_region code_bytes data_bytes mixed_bytes padding_bytes : CodeRegionKind

unfoldable pub code_region_kind_code : CodeRegionKind → ℕ
code_region_kind_code unknown_region = 0
code_region_kind_code code_bytes = 1
code_region_kind_code data_bytes = 2
code_region_kind_code mixed_bytes = 3
code_region_kind_code padding_bytes = 4

abbrev pub code_region_kind_list : List CodeRegionKind
code_region_kind_list = unknown_region ∷ code_bytes ∷ data_bytes ∷ mixed_bytes ∷ padding_bytes ∷ []

pub data CfgEdgeKind : Type 0 where
  unknown_edge fallthrough_edge true_branch false_branch call_edge return_edge exception_edge
        indirect_edge :
      CfgEdgeKind

unfoldable pub cfg_edge_kind_code : CfgEdgeKind → ℕ
cfg_edge_kind_code unknown_edge = 0
cfg_edge_kind_code fallthrough_edge = 1
cfg_edge_kind_code true_branch = 2
cfg_edge_kind_code false_branch = 3
cfg_edge_kind_code call_edge = 4
cfg_edge_kind_code return_edge = 5
cfg_edge_kind_code exception_edge = 6
cfg_edge_kind_code indirect_edge = 7

abbrev pub cfg_edge_kind_list : List CfgEdgeKind
cfg_edge_kind_list =
    unknown_edge ∷ fallthrough_edge ∷ true_branch ∷ false_branch ∷ call_edge ∷ return_edge
    ∷ exception_edge ∷ indirect_edge ∷ []

pub data FunctionStopKind : Type 0 where
  unknown_stop returned_stop halted faulted_stop timed_out_stop budget_exhausted escaped_function
        terminated_process :
      FunctionStopKind

unfoldable pub function_stop_kind_code : FunctionStopKind → ℕ
function_stop_kind_code unknown_stop = 0
function_stop_kind_code returned_stop = 1
function_stop_kind_code halted = 2
function_stop_kind_code faulted_stop = 3
function_stop_kind_code timed_out_stop = 4
function_stop_kind_code budget_exhausted = 5
function_stop_kind_code escaped_function = 6
function_stop_kind_code terminated_process = 7

abbrev pub function_stop_kind_list : List FunctionStopKind
function_stop_kind_list =
    unknown_stop ∷ returned_stop ∷ halted ∷ faulted_stop ∷ timed_out_stop ∷ budget_exhausted
    ∷ escaped_function ∷ terminated_process ∷ []

pub data RegisterStatePoint : Type 0 where
  before_instruction after_instruction function_entry function_exit call_entry call_return :
      RegisterStatePoint

unfoldable pub register_state_point_code : RegisterStatePoint → ℕ
register_state_point_code before_instruction = 1
register_state_point_code after_instruction = 2
register_state_point_code function_entry = 3
register_state_point_code function_exit = 4
register_state_point_code call_entry = 5
register_state_point_code call_return = 6

abbrev pub register_state_point_list : List RegisterStatePoint
register_state_point_list =
    before_instruction ∷ after_instruction ∷ function_entry ∷ function_exit ∷ call_entry
    ∷ call_return ∷ []

pub data CallKind : Type 0 where
  unknown_call plain_call tail_call system_call imported_call : CallKind

unfoldable pub call_kind_code : CallKind → ℕ
call_kind_code unknown_call = 0
call_kind_code plain_call = 1
call_kind_code tail_call = 2
call_kind_code system_call = 3
call_kind_code imported_call = 4

abbrev pub call_kind_list : List CallKind
call_kind_list = unknown_call ∷ plain_call ∷ tail_call ∷ system_call ∷ imported_call ∷ []

pub data CallResult : Type 0 where
  unknown_result returned_result no_return_result faulted_result timed_out_result : CallResult

unfoldable pub call_result_code : CallResult → ℕ
call_result_code unknown_result = 0
call_result_code returned_result = 1
call_result_code no_return_result = 2
call_result_code faulted_result = 3
call_result_code timed_out_result = 4

abbrev pub call_result_list : List CallResult
call_result_list =
    unknown_result ∷ returned_result ∷ no_return_result ∷ faulted_result ∷ timed_out_result ∷ []
