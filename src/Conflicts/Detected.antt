-- ===== src/Conflicts/Detected.antt =====
-- The report over buckets and regions has exactly the conflicts that the comparison of every two
-- payloads finds (detect_conflicts of src/evidence_store.cpp).
use viy.Base.{
  ℕ, ◌≡◌, refl, sym, ◌∙◌, Bool, true, false, ◌&&◌, ◌||◌, Option, some, List, [], ◌∷◌, ◌++◌, map,
  max, min, ltb, inl, inr, Bool-cases, arith,
}
use viy.Base.Any.{any, any-concat, any-map, any_pair, any_pair_join, any_pair_same, concat, both}
use viy.Base.Buckets.{same_key}
use viy.Base.Lex.{less_bytes, less_bytes_total, less_bytes_trans, less_bytes_self}
use viy.Facts.Schema.{CodeRegionFact, FactPayload, code_region}
use viy.Facts.Bytes.{FactCodecLimits}
use viy.Store.Defs.{Entry, EvidenceStore}
use viy.Store.Invariant.{IsLedger}
use viy.Conflicts.Payloads.{get_code_region, region_kinds_incompatible_sym}
use viy.Conflicts.Dispatch.{Conflict, when, incompatible_code_region, contradiction}
use viy.Conflicts.Compare.{compare_payloads}
use viy.Conflicts.Dispatch.{conflict}
use viy.Conflicts.Keys.{target_key, edge_key, function_key, site_key}
use viy.Conflicts.Loops.{payload, for_pairs, for_buckets, bucketed, Region, in_group, any-bucketed}
use viy.Conflicts.Index.{FactDigest, digest}
use viy.Conflicts.Sweep.{of_regions, sweep-regions}
use viy.Conflicts.Found.{regions-Extended}
use viy.Conflicts.Detect.{
  memory_key, string_key, candidate_key, register_key, call_key, Reported, reported, report,
  report_regions, found_by_loops, detected_conflicts,
}
use viy.Conflicts.Covered.{covered}

-- The order of the two payloads does not show in a reported conflict.
reported_sym : (d e : FactDigest) (c : Conflict) → reported d e c ≡ reported e d c
reported_sym d e c = elim (Bool-cases (less_bytes e d)) [
  | inl before ↦ elim (Bool-cases (less_bytes d e)) [
    | inl after ↦ absurd (clash (sym (less_bytes_trans d e d after before) ∙ less_bytes_self d))
    | inr later ↦ rw (before, later) refl
  ]
  | inr later ↦ elim (Bool-cases (less_bytes d e)) [
    | inl before ↦ rw (before, later) refl
    | inr earlier ↦ rw (less_bytes_total d e earlier later) refl
  ]
]
  where
    clash : true ≡ false → ⊥
    clash e = cc

compare_regions_sym :
    (a b : CodeRegionFact)
    → compare_payloads (code_region a) (code_region b)
      ≡ compare_payloads (code_region b) (code_region a)
unfolding compare_payloads concat
compare_regions_sym a b = λ i.
    when (overlap a.start b.start a.end b.end i && region_kinds_incompatible_sym a.kind b.kind i) (
      conflict incompatible_code_region contradiction (max_sym a.start b.start i)
        (some (min_sym a.end b.end i)))
    ++ []
  where
    overlap : (m n u v : ℕ) → ltb (max m n) (min u v) ≡ ltb (max n m) (min v u)
    overlap m n u v = ground arith

    max_sym : (m n : ℕ) → max m n ≡ max n m
    max_sym m n = omega arith

    min_sym : (m n : ℕ) → min m n ≡ min n m
    min_sym m n = omega arith

regions_sym :
    (p : Reported → Bool) (x y : Region) → any p (report_regions x y) ≡ any p (report_regions y x)
regions_sym p x y = λ i. any p (
    map (λ c. reported_sym (digest x.entry) (digest y.entry) c i)
      (compare_regions_sym x.fact y.fact i))

abbrev region_found : (Reported → Bool) → Entry → Entry → Bool
region_found p = of_regions (λ x y.
    ltb (max x.fact.start y.fact.start) (min x.fact.end y.fact.end) && any p (report_regions x y))

abbrev found : (Reported → Bool) → Entry → Entry → Bool
found p x y = any p (report x y)

-- Which pairs each of the loops looks at, and what it looks for in them.
abbrev relations : (Reported → Bool) → List (Entry → Entry → Bool)
relations p =
    in_group target_key (found p)
    ∷ in_group edge_key (found p)
    ∷ in_group memory_key (found p)
    ∷ in_group string_key (found p)
    ∷ in_group candidate_key (found p)
    ∷ in_group function_key (found p)
    ∷ in_group site_key (found p)
    ∷ in_group register_key (found p)
    ∷ in_group call_key (found p)
    ∷ region_found p
    ∷ []

-- Whatever one looks for, it is among the accumulated conflicts of a ledger that satisfies the
-- invariant exactly if the comparison of some two of its payloads, in the order of the ledger,
-- reports it.
pub detected_conflicts-compare_payloads :
    (limits : FactCodecLimits) (store : EvidenceStore) (p : Reported → Bool)
    → IsLedger limits store
    → any p (detected_conflicts store)
      ≡ any_pair
          (λ x y.
            any
              (λ c. p (reported (digest x) (digest y) c))
              (compare_payloads x.value.payload y.value.payload))
          store
unfolding detected_conflicts IsLedger any
detected_conflicts-compare_payloads limits store p l =
    any-concat p (found_by_loops store)
    ∙ (λ i.
        one target_key i
        || (one edge_key i
            || (one memory_key i
                || (one string_key i
                    || (one candidate_key i
                        || (one function_key i
                            || (one site_key i
                                || (one register_key i
                                    || (one call_key i
                                        || (sweep-regions p report_regions store (regions_sym p)
                                              (regions-Extended limits store l.1) i
                                            || false))))))))))
    ∙ any_pair_join (relations p) store
    ∙ any_pair_same _ _ store together
  where
    one :
        (key : FactPayload → Option (List ℕ))
        → any p (for_buckets (for_pairs report) (bucketed key store))
          ≡ any_pair (in_group key (found p)) store
    one key = any-bucketed p report key store

    together :
        (x y : Entry)
        → any (λ r. r x y) (relations p)
          ≡ any
              (λ c. p (reported (digest x) (digest y) c))
              (compare_payloads (payload x) (payload y))
    together x y =
        (λ i.
          same_key (target_key (payload x)) (target_key (payload y)) && here i
          || (same_key (edge_key (payload x)) (edge_key (payload y)) && here i
              || (same_key (memory_key (payload x)) (memory_key (payload y)) && here i
                  || (same_key (string_key (payload x)) (string_key (payload y)) && here i
                      || (same_key (candidate_key (payload x)) (candidate_key (payload y)) && here i
                          || (same_key (function_key (payload x)) (function_key (payload y))
                                && here i
                              || (same_key (site_key (payload x)) (site_key (payload y)) && here i
                                  || (same_key (register_key (payload x)) (register_key (payload y))
                                        && here i
                                      || (same_key (call_key (payload x)) (call_key (payload y))
                                            && here i
                                          || (both false (get_code_region (payload x))
                                                (get_code_region (payload y))
                                                (λ a b.
                                                  ltb (max a.start b.start) (min a.end b.end)
                                                  && any-map p (reported (digest x) (digest y))
                                                      (compare_payloads (code_region a)
                                                        (code_region b))
                                                      i)
                                              || false))))))))))
        ∙ sym (covered (λ c. p (reported (digest x) (digest y) c)) (payload x) (payload y))
      where
        here :
            any p (report x y)
            ≡ any
                (λ c. p (reported (digest x) (digest y) c))
                (compare_payloads (payload x) (payload y))
        here = any-map p (reported (digest x) (digest y)) (compare_payloads (payload x) (payload y))
