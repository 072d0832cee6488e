-- ===== src/Conflicts/Payloads.antt =====
-- The alternatives of a payload (std::get_if) and the relations of their fields
-- (src/evidence_store.cpp).
use viy.Base.{◌≡◌, refl, Bool, true, false, ◌&&◌, ◌||◌, Option, none, some, ◌==◌, if◌then◌else◌}
use viy.Facts.Enums.{
  Reachability, reached, proven_unreachable, FunctionTraitKind, returns_trait, no_return_trait,
}
use viy.Facts.Kinds.{
  CodeRegionKind, unknown_region, code_bytes, data_bytes, mixed_bytes, padding_bytes,
  code_region_kind_code, FunctionStopKind, returned_stop,
}
use viy.Facts.Schema.{
  CodeTargetFact, BranchReachabilityFact, MemoryValueFact, StringCandidateFact,
  FunctionCandidateFact, FunctionTraitFact, CodeRegionFact, DispatchMapFact, CfgCandidateFact,
  FunctionOutcomeFact, RegisterValueFact, CallObservationFact, FactPayload, code_target,
  branch_reachability, memory_value, string_candidate, function_candidate, function_trait,
  code_region, dispatch_map, cfg_candidate, function_outcome, register_value, call_observation,
}

abbrev pub get_code_target : FactPayload → Option CodeTargetFact
get_code_target payload = elim payload [ code_target f ↦ some f | _ ↦ none ]

abbrev pub get_branch_reachability : FactPayload → Option BranchReachabilityFact
get_branch_reachability payload = elim payload [ branch_reachability f ↦ some f | _ ↦ none ]

abbrev pub get_memory_value : FactPayload → Option MemoryValueFact
get_memory_value payload = elim payload [ memory_value f ↦ some f | _ ↦ none ]

abbrev pub get_string_candidate : FactPayload → Option StringCandidateFact
get_string_candidate payload = elim payload [ string_candidate f ↦ some f | _ ↦ none ]

abbrev pub get_function_candidate : FactPayload → Option FunctionCandidateFact
get_function_candidate payload = elim payload [ function_candidate f ↦ some f | _ ↦ none ]

abbrev pub get_function_trait : FactPayload → Option FunctionTraitFact
get_function_trait payload = elim payload [ function_trait f ↦ some f | _ ↦ none ]

abbrev pub get_code_region : FactPayload → Option CodeRegionFact
get_code_region payload = elim payload [ code_region f ↦ some f | _ ↦ none ]

abbrev pub get_dispatch_map : FactPayload → Option DispatchMapFact
get_dispatch_map payload = elim payload [ dispatch_map f ↦ some f | _ ↦ none ]

abbrev pub get_cfg_candidate : FactPayload → Option CfgCandidateFact
get_cfg_candidate payload = elim payload [ cfg_candidate f ↦ some f | _ ↦ none ]

abbrev pub get_function_outcome : FactPayload → Option FunctionOutcomeFact
get_function_outcome payload = elim payload [ function_outcome f ↦ some f | _ ↦ none ]

abbrev pub get_register_value : FactPayload → Option RegisterValueFact
get_register_value payload = elim payload [ register_value f ↦ some f | _ ↦ none ]

abbrev pub get_call_observation : FactPayload → Option CallObservationFact
get_call_observation payload = elim payload [ call_observation f ↦ some f | _ ↦ none ]

abbrev pub is_reached : Reachability → Bool
is_reached state = elim state [ reached ↦ true | _ ↦ false ]

abbrev pub is_proven_unreachable : Reachability → Bool
is_proven_unreachable state = elim state [ proven_unreachable ↦ true | _ ↦ false ]

unfoldable pub opposite_reachability : Reachability → Reachability → Bool
opposite_reachability lhs rhs =
    is_reached lhs && is_proven_unreachable rhs || is_reached rhs && is_proven_unreachable lhs

-- Bytes that are code, and bytes that are none; an unknown or mixed region is neither.
abbrev pub is_code : CodeRegionKind → Bool
is_code kind = elim kind [ code_bytes ↦ true | _ ↦ false ]

abbrev pub is_noncode : CodeRegionKind → Bool
is_noncode kind = elim kind [ data_bytes ↦ true | padding_bytes ↦ true | _ ↦ false ]

abbrev pub is_undecided : CodeRegionKind → Bool
is_undecided kind = elim kind [ unknown_region ↦ true | mixed_bytes ↦ true | _ ↦ false ]

unfoldable pub region_kinds_incompatible : CodeRegionKind → CodeRegionKind → Bool
unfolding code_region_kind_code
region_kinds_incompatible lhs rhs =
    if code_region_kind_code lhs == code_region_kind_code rhs
      || is_undecided lhs
      || is_undecided rhs
    then false
    else is_code lhs && is_noncode rhs || is_code rhs && is_noncode lhs

-- Neither order of two kinds matters.
pub region_kinds_incompatible_sym :
    (lhs rhs : CodeRegionKind)
    → region_kinds_incompatible lhs rhs ≡ region_kinds_incompatible rhs lhs
unfolding region_kinds_incompatible code_region_kind_code
region_kinds_incompatible_sym unknown_region rhs =
    elim rhs
      as (λ k.
        region_kinds_incompatible unknown_region k ≡ region_kinds_incompatible k unknown_region) [
          | code_bytes ↦ refl
          | _ ↦ refl
        ]
region_kinds_incompatible_sym code_bytes rhs =
    elim rhs
      as (λ k. region_kinds_incompatible code_bytes k ≡ region_kinds_incompatible k code_bytes) [
        | code_bytes ↦ refl
        | _ ↦ refl
      ]
region_kinds_incompatible_sym data_bytes rhs =
    elim rhs
      as (λ k. region_kinds_incompatible data_bytes k ≡ region_kinds_incompatible k data_bytes) [
        | code_bytes ↦ refl
        | _ ↦ refl
      ]
region_kinds_incompatible_sym mixed_bytes rhs =
    elim rhs
      as (λ k. region_kinds_incompatible mixed_bytes k ≡ region_kinds_incompatible k mixed_bytes) [
        | code_bytes ↦ refl
        | _ ↦ refl
      ]
region_kinds_incompatible_sym padding_bytes rhs =
    elim rhs
      as (λ k.
        region_kinds_incompatible padding_bytes k ≡ region_kinds_incompatible k padding_bytes) [
          | code_bytes ↦ refl
          | _ ↦ refl
        ]

abbrev pub is_returns : FunctionTraitKind → Bool
is_returns trait = elim trait [ returns_trait ↦ true | _ ↦ false ]

abbrev pub is_no_return : FunctionTraitKind → Bool
is_no_return trait = elim trait [ no_return_trait ↦ true | _ ↦ false ]

abbrev pub is_return_trait : FunctionTraitKind → Bool
is_return_trait trait = is_returns trait || is_no_return trait

abbrev pub has_returned : FunctionStopKind → Bool
has_returned stop = elim stop [ returned_stop ↦ true | _ ↦ false ]
