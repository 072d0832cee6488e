-- ===== src/Conflicts/Found.antt =====
-- The index of contradictions finds exactly the contradictions that a comparison of every two
-- payloads finds (contradicted_payload_digests and compare_payloads of src/evidence_store.cpp).
use viy.Base.{
  max, min, ltb, ◌≡◌, refl, sym, ap, ◌∙◌, subst, Bool, true, false, ◌&&◌, ◌||◌, Option, none, some,
  List, [], ◌∷◌, ◌++◌, All, ◌<◌, ltb→lt, inl, inr, Option-cases, arith,
}
use viy.Base.Any.{any, any-append, any_append_four, any_pair, any_pair-or, any_pair_same, both}
use viy.Base.Buckets.{same_key, any_bucket-group}
use viy.Base.Lex.{equal_bytes}
use viy.Facts.Schema.{FactPayload, code_region, CodeRegionFact}
use viy.Facts.Bytes.{FactCodecLimits}
use viy.Facts.Sort.{sort}
use viy.Facts.Validate.{validate_payload}
use viy.Facts.Canonical.{some_injective}
use viy.Store.Defs.{Entry, EvidenceStore}
use viy.Store.Invariant.{EntryValid, IsLedger, entry_payload_valid}
use viy.Conflicts.Payloads.{
  region_kinds_incompatible, region_kinds_incompatible_sym, get_code_region,
}
use viy.Conflicts.Dispatch.{is_contradiction}
use viy.Conflicts.Compare.{compare_payloads}
use viy.Conflicts.Contradicts.{compare_payloads-contradictions}
use viy.Conflicts.Keys.{
  target_key, edge_key, function_key, site_key, target_test, edge_test, site_test, region_test,
  opposed, is_returning, is_never_returning, is_returned_outcome, payloads_contradict,
}
use viy.Conflicts.Loops.{
  payload, Region, regions, region_less, for_pairs, for_buckets, bucketed, sweep, in_group,
  any-for_buckets,
}
use viy.Conflicts.Index.{
  FactDigest, mark_if, mark_function, mark_regions, contradicted_payload_digests,
}
use viy.Conflicts.Marks.{marked, hit, hit_pair, marked_if}
use viy.Conflicts.Sweep.{sweep-regions}
use viy.Conflicts.Sorted.{Extended}
use viy.Conflicts.Marks.{paired, function_pair, mark_function_lem}

valid_region :
    (f : CodeRegionFact) (p : FactPayload)
    → validate_payload p ≡ true
    → get_code_region p ≡ some f
    → f.start < f.end
unfolding validate_payload
valid_region f p =
    elim p as (λ k. validate_payload k ≡ true → get_code_region k ≡ some f → f.start < f.end) [
      | code_region g ↦ λ v h.
          subst (λ (r : CodeRegionFact). r.start < r.end) (some_injective h)
            (ltb→lt g.start g.end v)
      | _ ↦ λ v h. absurd cc
    ]

region_Extended :
    (limits : FactCodecLimits) (e : Entry) (f : CodeRegionFact)
    → EntryValid limits e
    → get_code_region (payload e) ≡ some f
    → f.start < f.end
unfolding EntryValid
region_Extended limits e f (kp, kf, kk, obs, ordered, some_obs) h =
    valid_region f (payload e)
      (entry_payload_valid limits (payload e) e.value.observations obs some_obs) h

pub regions-Extended :
    (limits : FactCodecLimits) (store : EvidenceStore)
    → All (EntryValid limits) store
    → All Extended (regions store)
unfolding regions
regions-Extended limits [] vs = tt
regions-Extended limits (e ∷ store) vs = elim (Option-cases (get_code_region (payload e))) [
  | inl other ↦ rw other (regions-Extended limits store vs.1)
  | inr (f, found) ↦
      rw found (region_Extended limits e f vs.0 found, regions-Extended limits store vs.1)
]

-- The digest is one of two regions that share a byte and disagree.
region_pairs :
    (limits : FactCodecLimits) (d : FactDigest) (store : EvidenceStore)
    → All (EntryValid limits) store
    → marked d (sweep mark_regions (sort region_less (regions store)))
      ≡ any_pair (hit_pair d region_test) store
region_pairs limits d store vs =
    sweep-regions (equal_bytes d) mark_regions store symmetric (regions-Extended limits store vs)
    ∙ any_pair_same _ _ store
        (λ x y. same x y (get_code_region (payload x)) (get_code_region (payload y)))
  where
    or_sym : (a b : Bool) → (a || b) ≡ (b || a)
    or_sym a b = ground arith

    symmetric : (x y : Region) → marked d (mark_regions x y) ≡ marked d (mark_regions y x)
    symmetric x y =
        marked_if d (region_kinds_incompatible x.fact.kind y.fact.kind) x.entry y.entry
        ∙ (λ i.
            region_kinds_incompatible_sym x.fact.kind y.fact.kind i
            && or_sym (hit d x.entry) (hit d y.entry) i)
        ∙ sym (marked_if d (region_kinds_incompatible y.fact.kind x.fact.kind) y.entry x.entry)

    regroup : (a b c : Bool) → (a && (b && c)) ≡ ((a && b) && c)
    regroup a b c = ground arith

    same :
        (x y : Entry) (f g : Option CodeRegionFact)
        → both false f g (λ a b.
          ltb (max a.start b.start) (min a.end b.end)
          && marked d
              (mark_regions (record { entry = x; fact = a }) (record { entry = y; fact = b })))
          ≡ (both false f g (λ a b.
                ltb (max a.start b.start) (min a.end b.end)
                && region_kinds_incompatible a.kind b.kind)
              && (hit d x || hit d y))
    same x y none g = refl
    same x y (some a) none = refl
    same x y (some a) (some b) =
        ap (λ c. ltb (max a.start b.start) (min a.end b.end) && c)
          (marked_if d (region_kinds_incompatible a.kind b.kind) x y)
        ∙ regroup (ltb (max a.start b.start) (min a.end b.end))
            (region_kinds_incompatible a.kind b.kind) (hit d x || hit d y)

any_pair_five :
    (a b c e f : Entry → Entry → Bool) (xs : List Entry)
    → (any_pair a xs || any_pair b xs || any_pair c xs || any_pair e xs || any_pair f xs)
      ≡ any_pair (λ x y. a x y || b x y || c x y || e x y || f x y) xs
any_pair_five a b c e f xs =
    (λ i. sym (any_pair-or a b xs) i || any_pair c xs || any_pair e xs || any_pair f xs)
    ∙ (λ i. sym (any_pair-or (λ x y. a x y || b x y) c xs) i || any_pair e xs || any_pair f xs)
    ∙ (λ i. sym (any_pair-or (λ x y. a x y || b x y || c x y) e xs) i || any_pair f xs)
    ∙ sym (any_pair-or (λ x y. a x y || b x y || c x y || e x y) f xs)

distribute :
    (a b c e f g h k l m o : Bool)
    → (a && (b && o) || c && (e && o) || f && (g && o || h && o) || k && (l && o) || m && o)
      ≡ ((a && b || c && e || f && g || f && h || k && l || m) && o)
distribute a b c e f g h k l m true = ground arith
distribute a b c e f g h k l m false = ground arith

-- In a ledger that satisfies the invariant a digest is marked exactly if it is that of one of two
-- payloads between which the comparison of every two payloads reports a contradiction: the buckets and
-- the sweep over the regions miss none and add none.
pub contradicted_payload_digests-compare_payloads :
    (limits : FactCodecLimits) (store : EvidenceStore) (d : FactDigest)
    → IsLedger limits store
    → any (equal_bytes d) (contradicted_payload_digests store)
      ≡ any_pair
          (λ x y.
            any is_contradiction (compare_payloads x.value.payload y.value.payload)
            && (hit d x || hit d y))
          store
unfolding contradicted_payload_digests IsLedger payloads_contradict
contradicted_payload_digests-compare_payloads limits store d l =
    any-append (equal_bytes d) (t ++ e ++ f ++ s) r
    ∙ (λ i. any_append_four (equal_bytes d) t e f s i || any (equal_bytes d) r)
    ∙ (λ i.
        paired d target_test target_key store i
        || paired d edge_test edge_key store i
        || (any-for_buckets (equal_bytes d) mark_function (function_pair d)
                (bucketed function_key store) (mark_function_lem d)
              ∙ any_bucket-group (function_pair d) (λ x. function_key (payload x)) store)
            i
        || paired d site_test site_key store i
        || region_pairs limits d store l.1 i)
    ∙ any_pair_five (in_group target_key (hit_pair d target_test))
        (in_group edge_key (hit_pair d edge_test)) (in_group function_key (function_pair d))
        (in_group site_key (hit_pair d site_test)) (hit_pair d region_test) store
    ∙ any_pair_same _ _ store together
  where
    t : List FactDigest
    t = for_buckets (for_pairs (mark_if target_test)) (bucketed target_key store)

    e : List FactDigest
    e = for_buckets (for_pairs (mark_if edge_test)) (bucketed edge_key store)

    f : List FactDigest
    f = for_buckets mark_function (bucketed function_key store)

    s : List FactDigest
    s = for_buckets (for_pairs (mark_if site_test)) (bucketed site_key store)

    r : List FactDigest
    r = sweep mark_regions (sort region_less (regions store))

    together :
        (x y : Entry)
        → (in_group target_key (hit_pair d target_test) x y
            || in_group edge_key (hit_pair d edge_test) x y
            || in_group function_key (function_pair d) x y
            || in_group site_key (hit_pair d site_test) x y
            || hit_pair d region_test x y)
          ≡ (any is_contradiction (compare_payloads (payload x) (payload y))
              && (hit d x || hit d y))
    together x y =
        distribute (same_key (target_key (payload x)) (target_key (payload y)))
          (target_test (payload x) (payload y))
          (same_key (edge_key (payload x)) (edge_key (payload y)))
          (edge_test (payload x) (payload y))
          (same_key (function_key (payload x)) (function_key (payload y)))
          (opposed is_returning is_never_returning (payload x) (payload y))
          (opposed is_never_returning is_returned_outcome (payload x) (payload y))
          (same_key (site_key (payload x)) (site_key (payload y)))
          (site_test (payload x) (payload y)) (region_test (payload x) (payload y))
          (hit d x || hit d y)
        ∙ ap (λ b. b && (hit d x || hit d y))
            (sym (compare_payloads-contradictions (payload x) (payload y)))
