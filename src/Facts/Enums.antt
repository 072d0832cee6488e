-- ===== src/Facts/Enums.antt =====
-- The enumerations of facts, with their stored numbers (src/analysis_facts.hpp): each has a list of
-- its values in the order of these.
use viy.Base.{ℕ, List, [], ◌∷◌}

pub data FactKind : Type 0 where
  code_target_kind branch_reachability_kind memory_access_kind memory_value_kind
        string_candidate_kind function_candidate_kind function_trait_kind code_region_kind
        dispatch_map_kind cfg_candidate_kind function_outcome_kind register_value_kind
        call_observation_kind :
      FactKind

unfoldable pub fact_kind_code : FactKind → ℕ
fact_kind_code code_target_kind = 1
fact_kind_code branch_reachability_kind = 2
fact_kind_code memory_access_kind = 3
fact_kind_code memory_value_kind = 4
fact_kind_code string_candidate_kind = 5
fact_kind_code function_candidate_kind = 6
fact_kind_code function_trait_kind = 7
fact_kind_code code_region_kind = 8
fact_kind_code dispatch_map_kind = 9
fact_kind_code cfg_candidate_kind = 10
fact_kind_code function_outcome_kind = 11
fact_kind_code register_value_kind = 12
fact_kind_code call_observation_kind = 13

abbrev pub fact_kind_list : List FactKind
fact_kind_list =
    code_target_kind ∷ branch_reachability_kind ∷ memory_access_kind ∷ memory_value_kind
    ∷ string_candidate_kind ∷ function_candidate_kind ∷ function_trait_kind ∷ code_region_kind
    ∷ dispatch_map_kind ∷ cfg_candidate_kind ∷ function_outcome_kind ∷ register_value_kind
    ∷ call_observation_kind ∷ []

pub data ProofKind : Type 0 where
  unknown_proof observed static_proof symbolic_proof cross_run_corroboration heuristic imported
        user_asserted :
      ProofKind

unfoldable pub proof_kind_code : ProofKind → ℕ
proof_kind_code unknown_proof = 0
proof_kind_code observed = 1
proof_kind_code static_proof = 2
proof_kind_code symbolic_proof = 3
proof_kind_code cross_run_corroboration = 4
proof_kind_code heuristic = 5
proof_kind_code imported = 6
proof_kind_code user_asserted = 7

abbrev pub proof_kind_list : List ProofKind
proof_kind_list =
    unknown_proof ∷ observed ∷ static_proof ∷ symbolic_proof ∷ cross_run_corroboration ∷ heuristic
    ∷ imported ∷ user_asserted ∷ []

pub data CodeTargetKind : Type 0 where
  unknown_target call_target jump_target fallthrough_target return_target table_entry
        exception_target :
      CodeTargetKind

unfoldable pub code_target_kind_code : CodeTargetKind → ℕ
code_target_kind_code unknown_target = 0
code_target_kind_code call_target = 1
code_target_kind_code jump_target = 2
code_target_kind_code fallthrough_target = 3
code_target_kind_code return_target = 4
code_target_kind_code table_entry = 5
code_target_kind_code exception_target = 6

abbrev pub code_target_kind_list : List CodeTargetKind
code_target_kind_list =
    unknown_target ∷ call_target ∷ jump_target ∷ fallthrough_target ∷ return_target ∷ table_entry
    ∷ exception_target ∷ []

pub data Reachability : Type 0 where
  not_observed reached proven_unreachable : Reachability

unfoldable pub reachability_code : Reachability → ℕ
reachability_code not_observed = 0
reachability_code reached = 1
reachability_code proven_unreachable = 2

abbrev pub reachability_list : List Reachability
reachability_list = not_observed ∷ reached ∷ proven_unreachable ∷ []

pub data MemoryAccessKind : Type 0 where
  read_access write_access execute_access read_write_access : MemoryAccessKind

unfoldable pub memory_access_kind_code : MemoryAccessKind → ℕ
memory_access_kind_code read_access = 1
memory_access_kind_code write_access = 2
memory_access_kind_code execute_access = 3
memory_access_kind_code read_write_access = 4

abbrev pub memory_access_kind_list : List MemoryAccessKind
memory_access_kind_list = read_access ∷ write_access ∷ execute_access ∷ read_write_access ∷ []

pub data StringEncoding : Type 0 where
  bytes_encoding ascii_encoding utf8_encoding utf16_le_encoding utf16_be_encoding utf32_le_encoding
        utf32_be_encoding :
      StringEncoding

unfoldable pub string_encoding_code : StringEncoding → ℕ
string_encoding_code bytes_encoding = 0
string_encoding_code ascii_encoding = 1
string_encoding_code utf8_encoding = 2
string_encoding_code utf16_le_encoding = 3
string_encoding_code utf16_be_encoding = 4
string_encoding_code utf32_le_encoding = 5
string_encoding_code utf32_be_encoding = 6

abbrev pub string_encoding_list : List StringEncoding
string_encoding_list =
    bytes_encoding ∷ ascii_encoding ∷ utf8_encoding ∷ utf16_le_encoding ∷ utf16_be_encoding
    ∷ utf32_le_encoding ∷ utf32_be_encoding ∷ []

pub data FunctionCandidateKind : Type 0 where
  other_candidate entry_point call_target_candidate prologue orphan_chunk exception_handler
        export_candidate user_asserted_candidate :
      FunctionCandidateKind

unfoldable pub function_candidate_kind_code : FunctionCandidateKind → ℕ
function_candidate_kind_code other_candidate = 0
function_candidate_kind_code entry_point = 1
function_candidate_kind_code call_target_candidate = 2
function_candidate_kind_code prologue = 3
function_candidate_kind_code orphan_chunk = 4
function_candidate_kind_code exception_handler = 5
function_candidate_kind_code export_candidate = 6
function_candidate_kind_code user_asserted_candidate = 7

abbrev pub function_candidate_kind_list : List FunctionCandidateKind
function_candidate_kind_list =
    other_candidate ∷ entry_point ∷ call_target_candidate ∷ prologue ∷ orphan_chunk
    ∷ exception_handler ∷ export_candidate ∷ user_asserted_candidate ∷ []

pub data FunctionTraitKind : Type 0 where
  other_trait returns_trait no_return_trait stack_delta_trait argument_register return_constant
        wrapper_target leaf thunk calling_convention :
      FunctionTraitKind

unfoldable pub function_trait_kind_code : FunctionTraitKind → ℕ
function_trait_kind_code other_trait = 0
function_trait_kind_code returns_trait = 1
function_trait_kind_code no_return_trait = 2
function_trait_kind_code stack_delta_trait = 3
function_trait_kind_code argument_register = 4
function_trait_kind_code return_constant = 5
function_trait_kind_code wrapper_target = 6
function_trait_kind_code leaf = 7
function_trait_kind_code thunk = 8
function_trait_kind_code calling_convention = 9

abbrev pub function_trait_kind_list : List FunctionTraitKind
function_trait_kind_list =
    other_trait ∷ returns_trait ∷ no_return_trait ∷ stack_delta_trait ∷ argument_register
    ∷ return_constant ∷ wrapper_target ∷ leaf ∷ thunk ∷ calling_convention ∷ []

pub data TraitValueKind : Type 0 where
  no_value signed_kind unsigned_kind boolean_kind text_kind : TraitValueKind

unfoldable pub trait_value_kind_code : TraitValueKind → ℕ
trait_value_kind_code no_value = 0
trait_value_kind_code signed_kind = 1
trait_value_kind_code unsigned_kind = 2
trait_value_kind_code boolean_kind = 3
trait_value_kind_code text_kind = 4

abbrev pub trait_value_kind_list : List TraitValueKind
trait_value_kind_list = no_value ∷ signed_kind ∷ unsigned_kind ∷ boolean_kind ∷ text_kind ∷ []
