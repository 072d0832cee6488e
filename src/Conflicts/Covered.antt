-- ===== src/Conflicts/Covered.antt =====
-- Two payloads between which there is a conflict are in one group, or are regions that share a byte
-- (src/evidence_store.cpp).
use viy.Base.{
  ◌≡◌, refl, Bool, true, false, ◌&&◌, ◌||◌, List, [], ◌++◌, ◌==◌, max, min, ltb, if◌then◌else◌,
  arith,
}
use viy.Base.Any.{any, concat, both}
use viy.Base.Buckets.{same_key}
use viy.Facts.Schema.{
  FunctionTraitFact, DispatchMapFact, FactPayload, code_target, branch_reachability, memory_access,
  memory_value, string_candidate, function_candidate, function_trait, code_region, dispatch_map,
  cfg_candidate, function_outcome, register_value, call_observation,
}
use viy.Conflicts.Payloads.{get_code_region}
use viy.Conflicts.Dispatch.{Conflict, when, compare_dispatch_maps}
use viy.Conflicts.Compare.{compare_traits, compare_payloads}
use viy.Conflicts.Calls.{compare_calls}
use viy.Conflicts.Keys.{target_key, edge_key, function_key, site_key}
use viy.Conflicts.Detect.{memory_key, string_key, candidate_key, register_key, call_key}

-- The conflict is found in one of the groups, or by the sweep.
abbrev pub found_in : (Conflict → Bool) → FactPayload → FactPayload → Bool
found_in q l r =
    let here = any q (compare_payloads l r) in
    same_key (target_key l) (target_key r) && here
    || (same_key (edge_key l) (edge_key r) && here
        || (same_key (memory_key l) (memory_key r) && here
            || (same_key (string_key l) (string_key r) && here
                || (same_key (candidate_key l) (candidate_key r) && here
                    || (same_key (function_key l) (function_key r) && here
                        || (same_key (site_key l) (site_key r) && here
                            || (same_key (register_key l) (register_key r) && here
                                || (same_key (call_key l) (call_key r) && here
                                    || (both false (get_code_region l) (get_code_region r) (λ a b.
                                          ltb (max a.start b.start) (min a.end b.end)
                                          && any q
                                              (compare_payloads (code_region a) (code_region b)))
                                        || false)))))))))

abbrev Covered : (Conflict → Bool) → FactPayload → FactPayload → Type 0
Covered q l r = any q (compare_payloads l r) ≡ found_in q l r

guarded :
    (q : Conflict → Bool) (s c : Bool) (k : Conflict)
    → (c ≡ true → s ≡ true)
    → any q (when c k ++ []) ≡ (s && any q (when c k ++ []) || false)
unfolding any
guarded q s true k h = ground (arith, h refl)
guarded q s false k h = ground arith

under_key :
    (q : Conflict → Bool) (s : Bool) (conflicts : List Conflict)
    → any q ((if s then conflicts else []) ++ [])
      ≡ (s && true && any q ((if s then conflicts else []) ++ []) || false)
unfolding any
under_key q true conflicts = ground arith
under_key q false conflicts = refl

traits_guarded :
    (q : Conflict → Bool) (a b : FunctionTraitFact)
    → any q (compare_traits a b ++ [])
      ≡ (a.function == b.function && true && any q (compare_traits a b ++ []) || false)
traits_guarded q a b = under_key q (a.function == b.function) _

maps_guarded :
    (q : Conflict → Bool) (a b : DispatchMapFact)
    → any q (compare_dispatch_maps a b ++ [])
      ≡ (a.site == b.site && true && any q (compare_dispatch_maps a b ++ []) || false)
unfolding compare_dispatch_maps
maps_guarded q a b = under_key q (a.site == b.site) _

pub covered :
    (q : Conflict → Bool) (l r : FactPayload) → any q (compare_payloads l r) ≡ found_in q l r
unfolding any concat compare_payloads compare_calls
covered q (code_target a) r = elim r as (λ k. Covered q (code_target a) k) [
  | code_target b ↦ guarded q _ _ _ (λ h. ground arith)
  | _ ↦ refl
]
covered q (branch_reachability a) r = elim r as (λ k. Covered q (branch_reachability a) k) [
  | branch_reachability b ↦ guarded q _ _ _ (λ h. ground arith)
  | cfg_candidate b ↦ guarded q _ _ _ (λ h. ground arith)
  | _ ↦ refl
]
covered q (memory_access a) r = elim r as (λ k. Covered q (memory_access a) k) [
  | code_target b ↦ refl
  | _ ↦ refl
]
covered q (memory_value a) r = elim r as (λ k. Covered q (memory_value a) k) [
  | memory_value b ↦ guarded q _ _ _ (λ h. ground arith)
  | _ ↦ refl
]
covered q (string_candidate a) r = elim r as (λ k. Covered q (string_candidate a) k) [
  | string_candidate b ↦ guarded q _ _ _ (λ h. ground arith)
  | _ ↦ refl
]
covered q (function_candidate a) r = elim r as (λ k. Covered q (function_candidate a) k) [
  | function_candidate b ↦ guarded q _ _ _ (λ h. ground arith)
  | _ ↦ refl
]
covered q (function_trait a) r = elim r as (λ k. Covered q (function_trait a) k) [
  | function_trait b ↦ traits_guarded q a b
  | function_outcome b ↦ guarded q _ _ _ (λ h. ground arith)
  | _ ↦ refl
]
covered q (code_region a) r = elim r as (λ k. Covered q (code_region a) k) [
  | code_region b ↦ guarded q _ _ _ (λ h. ground arith)
  | _ ↦ refl
]
covered q (dispatch_map a) r = elim r as (λ k. Covered q (dispatch_map a) k) [
  | dispatch_map b ↦ maps_guarded q a b
  | _ ↦ refl
]
covered q (cfg_candidate a) r = elim r as (λ k. Covered q (cfg_candidate a) k) [
  | branch_reachability b ↦ guarded q _ _ _ (λ h. ground arith)
  | cfg_candidate b ↦ guarded q _ _ _ (λ h. ground arith)
  | _ ↦ refl
]
covered q (function_outcome a) r = elim r as (λ k. Covered q (function_outcome a) k) [
  | function_trait b ↦ guarded q _ _ _ (λ h. ground arith)
  | function_outcome b ↦ guarded q _ _ _ (λ h. ground arith)
  | _ ↦ refl
]
covered q (register_value a) r = elim r as (λ k. Covered q (register_value a) k) [
  | register_value b ↦ guarded q _ _ _ (λ h. ground arith)
  | _ ↦ refl
]
covered q (call_observation a) r = elim r as (λ k. Covered q (call_observation a) k) [
  | call_observation b ↦ guarded q _ _ _ (λ h. ground arith)
  | _ ↦ refl
]
