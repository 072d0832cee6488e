-- ===== src/Conflicts/Index.antt =====
-- The index of contradictions: contradicted_payload_digests of src/evidence_store.cpp, without the
-- counts of the work. The source fills its five maps in one loop; here each has its grouping. The
-- set of digests is the list of those that were marked, of which only membership is used.
use viy.Base.{ℕ, Bool, true, false, ◌&&◌, List, [], ◌∷◌, ◌++◌, map, if◌then◌else◌}
use viy.Base.Buckets.{group}
use viy.Facts.Schema.{FactPayload}
use viy.Facts.Sort.{sort}
use viy.Facts.Sha256.{sha256_bytes}
use viy.Conflicts.Loops.{
  payload, for_pairs, for_buckets, bucketed, Region, regions, region_less, sweep,
}
use viy.Store.Defs.{Entry, EvidenceStore}
use viy.Conflicts.Payloads.{region_kinds_incompatible}
use viy.Conflicts.Keys.{
  target_key, edge_key, function_key, site_key, target_test, edge_test, site_test, is_returning,
  is_never_returning, is_returned_outcome,
}

abbrev pub FactDigest : Type 0
FactDigest = List ℕ

unfoldable pub digest : Entry → FactDigest
digest entry = sha256_bytes entry.key

abbrev pub mark_pair : Entry → Entry → List FactDigest
mark_pair left right = digest left ∷ digest right ∷ []

abbrev pub mark_if : (FactPayload → FactPayload → Bool) → Entry → Entry → List FactDigest
mark_if test left right = if test (payload left) (payload right) then mark_pair left right else []

unfoldable pub select : (FactPayload → Bool) → List Entry → List Entry
select test [] = []
select test (entry ∷ entries) =
    let rest = select test entries in if test (payload entry) then entry ∷ rest else rest

abbrev pub not_empty : List Entry → Bool
not_empty [] = false
not_empty (entry ∷ entries) = true

-- Two kinds of evidence that cannot both be: each of both is marked when there are some of both.
unfoldable pub mark_opposed :
    (FactPayload → Bool) → (FactPayload → Bool) → List Entry → List FactDigest
unfolding select
mark_opposed p q entries =
    if not_empty (select p entries) && not_empty (select q entries)
    then map digest (select p entries) ++ map digest (select q entries)
    else []

abbrev pub mark_function : List Entry → List FactDigest
mark_function entries =
    mark_opposed is_returning is_never_returning entries
    ++ mark_opposed is_never_returning is_returned_outcome entries

abbrev pub mark_regions : Region → Region → List FactDigest
mark_regions left right =
    if region_kinds_incompatible left.fact.kind right.fact.kind
    then mark_pair left.entry right.entry
    else []

unfoldable pub contradicted_payload_digests : EvidenceStore → List FactDigest
unfolding group for_buckets for_pairs mark_opposed sweep regions
contradicted_payload_digests store =
    for_buckets (for_pairs (mark_if target_test)) (bucketed target_key store)
    ++ for_buckets (for_pairs (mark_if edge_test)) (bucketed edge_key store)
    ++ for_buckets mark_function (bucketed function_key store)
    ++ for_buckets (for_pairs (mark_if site_test)) (bucketed site_key store)
    ++ sweep mark_regions (sort region_less (regions store))
