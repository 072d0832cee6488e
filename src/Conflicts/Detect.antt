-- ===== src/Conflicts/Detect.antt =====
-- The report of all conflicts: detect_conflicts of src/evidence_store.cpp up to its last sort, which
-- puts the accumulated conflicts in order and drops repetitions. The nine maps that the source fills in one
-- loop have a grouping each.
use viy.Base.{ℕ, Option, none, some, List, [], ◌∷◌, map, if◌then◌else◌}
use viy.Base.Any.{concat}
use viy.Base.Lex.{less_bytes}
use viy.Base.Buckets.{group}
use viy.Facts.Enums.{memory_access_kind_code}
use viy.Facts.Kinds.{register_state_point_code}
use viy.Facts.Schema.{
  FactPayload, memory_value, string_candidate, function_candidate, code_region, register_value,
  call_observation,
}
use viy.Facts.Sort.{sort}
use viy.Store.Defs.{Entry, EvidenceStore}
use viy.Conflicts.Dispatch.{Conflict}
use viy.Conflicts.Compare.{compare_payloads}
use viy.Conflicts.Keys.{target_key, edge_key, function_key, site_key}
use viy.Conflicts.Loops.{
  payload, for_pairs, for_buckets, bucketed, Region, regions, region_less, sweep,
}
use viy.Conflicts.Index.{FactDigest, digest}

abbrev pub memory_key : FactPayload → Option (List ℕ)
memory_key payload = elim payload [
  | memory_value f ↦ some (f.instruction ∷ f.address ∷ memory_access_kind_code f.kind ∷ [])
  | _ ↦ none
]

abbrev pub string_key : FactPayload → Option (List ℕ)
string_key payload = elim payload [ string_candidate f ↦ some (f.address ∷ []) | _ ↦ none ]

abbrev pub candidate_key : FactPayload → Option (List ℕ)
candidate_key payload = elim payload [ function_candidate f ↦ some (f.entry ∷ []) | _ ↦ none ]

abbrev pub register_key : FactPayload → Option (List ℕ)
register_key payload = elim payload [
  | register_value f ↦ some (f.instruction ∷ register_state_point_code f.point ∷ f.register_id)
  | _ ↦ none
]

abbrev pub call_key : FactPayload → Option (List ℕ)
call_key payload = elim payload [ call_observation f ↦ some (f.source ∷ []) | _ ↦ none ]

-- A conflict with the digests of its payloads, the smaller one first.
pub record Reported : Type 0 where
  pub left : FactDigest
  pub right : FactDigest
  pub issue : Conflict

abbrev pub reported : FactDigest → FactDigest → Conflict → Reported
reported left right conflict =
    if less_bytes right left
    then record { left = right; right = left; issue = conflict }
    else record { left = left; right = right; issue = conflict }

abbrev pub report : Entry → Entry → List Reported
report left right =
    map (reported (digest left) (digest right)) (compare_payloads (payload left) (payload right))

abbrev pub report_regions : Region → Region → List Reported
report_regions left right =
    map (reported (digest left.entry) (digest right.entry))
      (compare_payloads (code_region left.fact) (code_region right.fact))

abbrev compare_buckets : (FactPayload → Option (List ℕ)) → EvidenceStore → List Reported
compare_buckets key store = for_buckets (for_pairs report) (bucketed key store)

-- What each of the loops finds.
abbrev pub found_by_loops : EvidenceStore → List (List Reported)
found_by_loops store =
    compare_buckets target_key store
    ∷ compare_buckets edge_key store
    ∷ compare_buckets memory_key store
    ∷ compare_buckets string_key store
    ∷ compare_buckets candidate_key store
    ∷ compare_buckets function_key store
    ∷ compare_buckets site_key store
    ∷ compare_buckets register_key store
    ∷ compare_buckets call_key store
    ∷ sweep report_regions (sort region_less (regions store))
    ∷ []

unfoldable pub detected_conflicts : EvidenceStore → List Reported
unfolding concat group for_buckets for_pairs sweep regions compare_payloads
detected_conflicts store = concat (found_by_loops store)
