-- ===== src/Conflicts/Keys.antt =====
-- The keys and tests of the index of contradictions (contradicted_payload_digests of
-- src/evidence_store.cpp).
use viy.Base.{ℕ, Bool, false, ◌&&◌, ◌||◌, Option, none, some, List, [], ◌∷◌, max, min, ltb}
use viy.Base.Any.{both}
use viy.Base.Buckets.{same_key}
use viy.Facts.Enums.{code_target_kind_code, Reachability}
use viy.Facts.Schema.{
  FactPayload, code_target, branch_reachability, function_trait, dispatch_map, cfg_candidate,
  function_outcome,
}
use viy.Conflicts.Payloads.{
  get_code_target, get_code_region, get_dispatch_map, opposite_reachability,
  region_kinds_incompatible, is_returns, is_no_return, has_returned,
}
use viy.Conflicts.Dispatch.{dispatch_maps_contradict}
use viy.Conflicts.Compare.{targets_disagree}

abbrev pub target_key : FactPayload → Option (List ℕ)
target_key payload = elim payload [
  | code_target f ↦ some (f.from ∷ code_target_kind_code f.kind ∷ [])
  | _ ↦ none
]

abbrev pub edge_key : FactPayload → Option (List ℕ)
edge_key payload = elim payload [
  | branch_reachability f ↦ some (f.branch ∷ f.successor ∷ [])
  | cfg_candidate f ↦ some (f.from ∷ f.to ∷ [])
  | _ ↦ none
]

abbrev pub function_key : FactPayload → Option (List ℕ)
function_key payload = elim payload [
  | function_trait f ↦ some (f.function ∷ [])
  | function_outcome f ↦ some (f.function ∷ [])
  | _ ↦ none
]

abbrev pub site_key : FactPayload → Option (List ℕ)
site_key payload = elim payload [ dispatch_map f ↦ some (f.site ∷ []) | _ ↦ none ]

abbrev pub edge_state : FactPayload → Option Reachability
edge_state payload = elim payload [
  | branch_reachability f ↦ some f.state
  | cfg_candidate f ↦ some f.state
  | _ ↦ none
]

abbrev pub is_returning : FactPayload → Bool
is_returning payload = elim payload [ function_trait f ↦ is_returns f.trait | _ ↦ false ]

abbrev pub is_never_returning : FactPayload → Bool
is_never_returning payload = elim payload [ function_trait f ↦ is_no_return f.trait | _ ↦ false ]

abbrev pub is_returned_outcome : FactPayload → Bool
is_returned_outcome payload = elim payload [ function_outcome f ↦ has_returned f.stop | _ ↦ false ]

-- The tests on two payloads of one bucket.
abbrev pub target_test : FactPayload → FactPayload → Bool
target_test l r = both false (get_code_target l) (get_code_target r) targets_disagree

abbrev pub edge_test : FactPayload → FactPayload → Bool
edge_test l r = both false (edge_state l) (edge_state r) opposite_reachability

abbrev pub site_test : FactPayload → FactPayload → Bool
site_test l r = both false (get_dispatch_map l) (get_dispatch_map r) dispatch_maps_contradict

-- One of the two satisfies the one test, and the other the other.
abbrev pub opposed {ℓ} : {A : Type ℓ} → (A → Bool) → (A → Bool) → A → A → Bool
opposed p q l r = p l && q r || q l && p r

-- Regions that share a byte and disagree.
abbrev pub region_test : FactPayload → FactPayload → Bool
region_test l r =
    both false (get_code_region l) (get_code_region r) (λ a b.
      ltb (max a.start b.start) (min a.end b.end) && region_kinds_incompatible a.kind b.kind)

unfoldable pub payloads_contradict : FactPayload → FactPayload → Bool
payloads_contradict l r =
    same_key (target_key l) (target_key r) && target_test l r
    || same_key (edge_key l) (edge_key r) && edge_test l r
    || same_key (function_key l) (function_key r) && opposed is_returning is_never_returning l r
    || same_key (function_key l) (function_key r)
      && opposed is_never_returning is_returned_outcome l r
    || same_key (site_key l) (site_key r) && site_test l r
    || region_test l r
