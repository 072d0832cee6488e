-- ===== src/Conflicts/Compare.antt =====
-- The conflicts of two payloads: compare_payloads of src/evidence_store.cpp. Each block of the
-- source is one list here, empty where the payloads are not of its kinds.
use viy.Base.{
  ℕ, Bool, true, false, not, ◌&&◌, ◌||◌, Option, none, some, List, [], ◌∷◌, ◌==◌, ltb, max, min,
  if◌then◌else◌,
}
use viy.Base.Lex.{equal_bytes}
use viy.Base.Any.{concat, both}
use viy.Base.Int.{ℤ, ◌==ℤ◌}
use viy.Facts.Enums.{
  Reachability, code_target_kind_code, memory_access_kind_code, string_encoding_code,
  FunctionTraitKind, other_trait, argument_register, stack_delta_trait, return_constant,
  function_trait_kind_code,
}
use viy.Facts.Kinds.{function_stop_kind_code, register_state_point_code}
use viy.Facts.Schema.{
  CodeTargetFact, BranchReachabilityFact, CfgCandidateFact, MemoryValueFact, StringCandidateFact,
  FunctionCandidateFact, FunctionTraitFact, CodeRegionFact, FunctionOutcomeFact, RegisterValueFact,
  FactPayload,
}
use viy.Facts.Validate.{equal_options}
use viy.Conflicts.Payloads.{
  get_code_target, get_branch_reachability, get_memory_value, get_string_candidate,
  get_function_candidate, get_function_trait, get_code_region, get_dispatch_map, get_cfg_candidate,
  get_function_outcome, get_register_value, get_call_observation, opposite_reachability,
  region_kinds_incompatible, is_no_return, is_return_trait, has_returned,
}
use viy.Conflicts.Dispatch.{
  ConflictSeverity, variation, ambiguity, contradiction, ConflictType, reachable_and_unreachable,
  divergent_memory_value, divergent_string_candidate, divergent_function_candidate,
  divergent_function_trait, return_behavior_contradiction, incompatible_code_region,
  divergent_cfg_reachability, divergent_function_outcome, conflicting_unique_code_target,
  divergent_register_value, Conflict, when, different, compare_dispatch_maps,
}
use viy.Conflicts.Dispatch.{conflict}
use viy.Conflicts.Calls.{compare_calls}

abbrev pub equal_bools : Bool → Bool → Bool
equal_bools a b = if a then b else not b

abbrev pub targets_disagree : CodeTargetFact → CodeTargetFact → Bool
targets_disagree left right = not (left.target == right.target) && (left.unique || right.unique)

abbrev pub compare_code_targets : CodeTargetFact → CodeTargetFact → List Conflict
compare_code_targets left right =
    when
      (left.from == right.from
        && code_target_kind_code left.kind == code_target_kind_code right.kind
        && targets_disagree left right)
      (conflict conflicting_unique_code_target contradiction left.from none)

-- An edge with its state: of a branch, or of a candidate of the control flow.
pub record Edge : Type 0 where
  pub from : ℕ
  pub to : ℕ
  pub state : Reachability

abbrev pub branch_edge : BranchReachabilityFact → Edge
branch_edge f = record { from = f.branch; to = f.successor; state = f.state }

abbrev pub cfg_edge : CfgCandidateFact → Edge
cfg_edge f = record { from = f.from; to = f.to; state = f.state }

abbrev pub compare_edges : ConflictType → Edge → Edge → List Conflict
compare_edges type left right =
    when
      (left.from == right.from
        && left.to == right.to
        && opposite_reachability left.state right.state)
      (conflict type contradiction left.from (some left.to))

abbrev pub compare_memory_values : MemoryValueFact → MemoryValueFact → List Conflict
compare_memory_values left right =
    when
      (left.instruction == right.instruction
        && left.address == right.address
        && memory_access_kind_code left.kind == memory_access_kind_code right.kind
        && not (equal_bytes left.bytes right.bytes))
      (conflict divergent_memory_value variation left.address (some left.instruction))

abbrev pub compare_strings : StringCandidateFact → StringCandidateFact → List Conflict
compare_strings left right =
    when
      (left.address == right.address
        && (not (string_encoding_code left.encoding == string_encoding_code right.encoding)
            || not (equal_bytes left.bytes right.bytes)
            || not (equal_bytes left.decoded right.decoded)
            || not (equal_bools left.null_terminated right.null_terminated)))
      (conflict divergent_string_candidate ambiguity left.address none)

abbrev pub compare_candidates : FunctionCandidateFact → FunctionCandidateFact → List Conflict
compare_candidates left right =
    when (left.entry == right.entry && different left.end right.end)
      (conflict divergent_function_candidate ambiguity left.entry none)

-- Traits of which a function can have several.
abbrev pub set_valued : FunctionTraitKind → Bool
set_valued trait = elim trait [ argument_register ↦ true | other_trait ↦ true | _ ↦ false ]

abbrev pub trait_severity : FunctionTraitKind → ConflictSeverity
trait_severity trait = elim trait [
  | stack_delta_trait ↦ variation
  | return_constant ↦ variation
  | _ ↦ ambiguity
]

abbrev pub same_trait : FunctionTraitKind → FunctionTraitKind → Bool
same_trait a b = function_trait_kind_code a == function_trait_kind_code b

abbrev pub compare_traits : FunctionTraitFact → FunctionTraitFact → List Conflict
compare_traits left right =
    if left.function == right.function
    then (if is_return_trait left.trait
          && is_return_trait right.trait
          && not (same_trait left.trait right.trait)
        then conflict return_behavior_contradiction contradiction left.function none ∷ []
        else when (same_trait left.trait right.trait && not (set_valued left.trait))
            (conflict divergent_function_trait (trait_severity left.trait) left.function none))
    else []

abbrev pub compare_trait_outcome : FunctionTraitFact → FunctionOutcomeFact → List Conflict
compare_trait_outcome left right =
    when (left.function == right.function && is_no_return left.trait && has_returned right.stop)
      (conflict return_behavior_contradiction contradiction left.function none)

abbrev pub compare_outcome_trait : FunctionOutcomeFact → FunctionTraitFact → List Conflict
compare_outcome_trait left right =
    when (left.function == right.function && has_returned left.stop && is_no_return right.trait)
      (conflict return_behavior_contradiction contradiction left.function none)

abbrev pub equal_deltas : Option ℤ → Option ℤ → Bool
equal_deltas none none = true
equal_deltas none (some b) = false
equal_deltas (some a) none = false
equal_deltas (some a) (some b) = a ==ℤ b

abbrev pub compare_outcomes : FunctionOutcomeFact → FunctionOutcomeFact → List Conflict
compare_outcomes left right =
    when
      (left.function == right.function
        && (not (function_stop_kind_code left.stop == function_stop_kind_code right.stop)
            || not (equal_options left.stop_pc right.stop_pc)
            || not (equal_deltas left.stack_delta right.stack_delta)
            || not (equal_options left.instruction_count right.instruction_count)))
      (conflict divergent_function_outcome variation left.function none)

abbrev pub compare_registers : RegisterValueFact → RegisterValueFact → List Conflict
compare_registers left right =
    when
      (left.instruction == right.instruction
        && register_state_point_code left.point == register_state_point_code right.point
        && equal_bytes left.register_id right.register_id
        && not (equal_bytes left.bytes right.bytes))
      (conflict divergent_register_value variation left.instruction none)

abbrev pub compare_regions : CodeRegionFact → CodeRegionFact → List Conflict
compare_regions left right =
    when
      (ltb (max left.start right.start) (min left.end right.end)
        && region_kinds_incompatible left.kind right.kind)
      (conflict incompatible_code_region contradiction (max left.start right.start)
        (some (min left.end right.end)))

unfoldable pub compare_payloads : FactPayload → FactPayload → List Conflict
unfolding concat compare_dispatch_maps compare_calls
compare_payloads l r = concat (
    both [] (get_code_target l) (get_code_target r) compare_code_targets
    ∷ both [] (get_branch_reachability l) (get_branch_reachability r)
        (λ a b. compare_edges reachable_and_unreachable (branch_edge a) (branch_edge b))
    ∷ both [] (get_branch_reachability l) (get_cfg_candidate r)
        (λ a b. compare_edges reachable_and_unreachable (branch_edge a) (cfg_edge b))
    ∷ both [] (get_cfg_candidate l) (get_branch_reachability r)
        (λ a b. compare_edges reachable_and_unreachable (cfg_edge a) (branch_edge b))
    ∷ both [] (get_cfg_candidate l) (get_cfg_candidate r)
        (λ a b. compare_edges divergent_cfg_reachability (cfg_edge a) (cfg_edge b))
    ∷ both [] (get_memory_value l) (get_memory_value r) compare_memory_values
    ∷ both [] (get_string_candidate l) (get_string_candidate r) compare_strings
    ∷ both [] (get_function_candidate l) (get_function_candidate r) compare_candidates
    ∷ both [] (get_function_trait l) (get_function_trait r) compare_traits
    ∷ both [] (get_function_trait l) (get_function_outcome r) compare_trait_outcome
    ∷ both [] (get_function_outcome l) (get_function_trait r) compare_outcome_trait
    ∷ both [] (get_function_outcome l) (get_function_outcome r) compare_outcomes
    ∷ both [] (get_register_value l) (get_register_value r) compare_registers
    ∷ both [] (get_call_observation l) (get_call_observation r) compare_calls
    ∷ both [] (get_code_region l) (get_code_region r) compare_regions
    ∷ both [] (get_dispatch_map l) (get_dispatch_map r) compare_dispatch_maps
    ∷ [])
