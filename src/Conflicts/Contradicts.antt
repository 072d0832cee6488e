-- ===== src/Conflicts/Contradicts.antt =====
-- The tests of the index find exactly the contradictions of compare_payloads
-- (src/evidence_store.cpp).
use viy.Base.{
  ℕ, ◌≡◌, refl, ap, ◌∙◌, Bool, true, false, not, ◌&&◌, ◌||◌, none, [], ◌∷◌, ◌++◌, ◌==◌,
  if◌then◌else◌, arith,
}
use viy.Base.Any.{any, any-append, concat}
use viy.Facts.Enums.{
  FunctionTraitKind, other_trait, returns_trait, no_return_trait, stack_delta_trait,
  argument_register, return_constant, wrapper_target, leaf, thunk, calling_convention,
  function_trait_kind_code,
}
use viy.Facts.Schema.{
  FunctionTraitFact, DispatchMapFact, FactPayload, code_target, branch_reachability, memory_access,
  memory_value, string_candidate, function_candidate, function_trait, code_region, dispatch_map,
  cfg_candidate, function_outcome, register_value, call_observation,
}
use viy.Conflicts.Payloads.{is_returns, is_no_return, is_return_trait}
use viy.Conflicts.Dispatch.{
  Conflict, variation, ambiguity, contradiction, divergent_function_trait,
  return_behavior_contradiction, divergent_call_observation, is_contradiction, when,
  compare_dispatch_maps, dispatch_maps_contradict, compare_dispatch_maps-contradictions,
}
use viy.Conflicts.Compare.{set_valued, trait_severity, same_trait, compare_traits, compare_payloads}
use viy.Conflicts.Dispatch.{conflict}
use viy.Conflicts.Keys.{payloads_contradict}

strong :
    (b : Bool) (c : Conflict) (test : Bool)
    → is_contradiction c ≡ true
    → b ≡ test
    → any is_contradiction (when b c ++ []) ≡ test
unfolding any
strong true c test h e = ground (arith, h, e)
strong false c test h e = e

mild :
    (b : Bool) (c : Conflict)
    → is_contradiction c ≡ false
    → any is_contradiction (when b c ++ []) ≡ false
unfolding any
mild true c h = ground (arith, h)
mild false c h = refl

abbrev Pair : FunctionTraitKind → FunctionTraitKind → Type 0
Pair t u =
    (is_return_trait t && is_return_trait u && not (same_trait t u))
    ≡ (is_returns t && is_no_return u || is_no_return t && is_returns u)

return_pair :
    (t u : FunctionTraitKind)
    → (is_return_trait t && is_return_trait u && not (same_trait t u))
      ≡ (is_returns t && is_no_return u || is_no_return t && is_returns u)
unfolding function_trait_kind_code
return_pair returns_trait u = elim u as (λ k. Pair returns_trait k) [
  | returns_trait ↦ refl
  | _ ↦ refl
]
return_pair no_return_trait u = elim u as (λ k. Pair no_return_trait k) [
  | returns_trait ↦ refl
  | _ ↦ refl
]
return_pair other_trait u = refl
return_pair stack_delta_trait u = refl
return_pair argument_register u = refl
return_pair return_constant u = refl
return_pair wrapper_target u = refl
return_pair leaf u = refl
return_pair thunk u = refl
return_pair calling_convention u = refl

trait_mild :
    (trait : FunctionTraitKind) (f : ℕ)
    → is_contradiction (conflict divergent_function_trait (trait_severity trait) f none) ≡ false
trait_mild trait f =
    elim trait
      as (λ k.
        is_contradiction (conflict divergent_function_trait (trait_severity k) f none) ≡ false) [
          | stack_delta_trait ↦ refl
          | _ ↦ refl
        ]

call_mild :
    (b : Bool) (source : ℕ)
    → is_contradiction
        (conflict divergent_call_observation (if b then ambiguity else variation) source none)
      ≡ false
call_mild true source = refl
call_mild false source = refl

trait_contradictions :
    (a b : FunctionTraitFact)
    → any is_contradiction (compare_traits a b ++ []) ≡ (
        a.function == b.function
        && (is_returns a.trait && is_no_return b.trait
            || is_no_return a.trait && is_returns b.trait))
unfolding any
trait_contradictions a b =
    three (a.function == b.function)
      (is_return_trait a.trait && is_return_trait b.trait && not (same_trait a.trait b.trait))
      (same_trait a.trait b.trait && not (set_valued a.trait))
    ∙ ap (λ c. a.function == b.function && c) (return_pair a.trait b.trait)
  where
    three :
        (same opposite divergent : Bool)
        → any is_contradiction (
            (if same
              then (if opposite
                  then conflict return_behavior_contradiction contradiction a.function none ∷ []
                  else when divergent
                      (conflict divergent_function_trait (trait_severity a.trait) a.function none))
              else [])
            ++ [])
          ≡ (same && opposite)
    three true true divergent = refl
    three true false divergent = mild divergent _ (trait_mild a.trait a.function)
    three false opposite divergent = refl

dispatch_contradictions :
    (a b : DispatchMapFact)
    → any is_contradiction (compare_dispatch_maps a b ++ [])
      ≡ (a.site == b.site && true && dispatch_maps_contradict a b)
unfolding any dispatch_maps_contradict
dispatch_contradictions a b =
    any-append is_contradiction (compare_dispatch_maps a b) []
    ∙ ground (arith, compare_dispatch_maps-contradictions a b)

abbrev Agreed : FactPayload → FactPayload → Type 0
Agreed l r = any is_contradiction (compare_payloads l r) ≡ payloads_contradict l r

-- The test finds out whether the comparison reports a contradiction.
pub compare_payloads-contradictions :
    (l r : FactPayload) → any is_contradiction (compare_payloads l r) ≡ payloads_contradict l r
unfolding any concat compare_payloads payloads_contradict
compare_payloads-contradictions (code_target a) r = elim r as (λ k. Agreed (code_target a) k) [
  | code_target b ↦ strong _ _ _ refl (ground arith)
  | _ ↦ refl
]
compare_payloads-contradictions (branch_reachability a) r =
    elim r as (λ k. Agreed (branch_reachability a) k) [
      | branch_reachability b ↦ strong _ _ _ refl (ground arith)
      | cfg_candidate b ↦ strong _ _ _ refl (ground arith)
      | _ ↦ refl
    ]
compare_payloads-contradictions (cfg_candidate a) r = elim r as (λ k. Agreed (cfg_candidate a) k) [
  | branch_reachability b ↦ strong _ _ _ refl (ground arith)
  | cfg_candidate b ↦ strong _ _ _ refl (ground arith)
  | _ ↦ refl
]
compare_payloads-contradictions (memory_access a) r = elim r as (λ k. Agreed (memory_access a) k) [
  | code_target b ↦ refl
  | _ ↦ refl
]
compare_payloads-contradictions (memory_value a) r = elim r as (λ k. Agreed (memory_value a) k) [
  | memory_value b ↦ mild _ _ refl
  | _ ↦ refl
]
compare_payloads-contradictions (string_candidate a) r =
    elim r as (λ k. Agreed (string_candidate a) k) [ string_candidate b ↦ mild _ _ refl | _ ↦ refl ]
compare_payloads-contradictions (function_candidate a) r =
    elim r as (λ k. Agreed (function_candidate a) k) [
      | function_candidate b ↦ mild _ _ refl
      | _ ↦ refl
    ]
compare_payloads-contradictions (function_trait a) r =
    elim r as (λ k. Agreed (function_trait a) k) [
      | function_trait b ↦ trait_contradictions a b ∙ ground arith
      | function_outcome b ↦ strong _ _ _ refl (ground arith)
      | _ ↦ refl
    ]
compare_payloads-contradictions (code_region a) r = elim r as (λ k. Agreed (code_region a) k) [
  | code_region b ↦ strong _ _ _ refl refl
  | _ ↦ refl
]
compare_payloads-contradictions (dispatch_map a) r = elim r as (λ k. Agreed (dispatch_map a) k) [
  | dispatch_map b ↦ dispatch_contradictions a b ∙ ground arith
  | _ ↦ refl
]
compare_payloads-contradictions (function_outcome a) r =
    elim r as (λ k. Agreed (function_outcome a) k) [
      | function_trait b ↦ strong _ _ _ refl (ground arith)
      | function_outcome b ↦ mild _ _ refl ∙ ground arith
      | _ ↦ refl
    ]
compare_payloads-contradictions (register_value a) r =
    elim r as (λ k. Agreed (register_value a) k) [ register_value b ↦ mild _ _ refl | _ ↦ refl ]
compare_payloads-contradictions (call_observation a) r =
    elim r as (λ k. Agreed (call_observation a) k) [
      | call_observation b ↦ mild _ _ (call_mild _ a.source)
      | _ ↦ refl
    ]
