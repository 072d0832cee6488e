-- ===== src/Conflicts/Tests.antt =====
-- Small runs (src/evidence_store.cpp).
use viy.Base.{Bool, ◌≡◌, refl, true, false, none, some, ◌&&◌, ◌||◌, [], ◌∷◌}
use viy.Base.Any.{any, any_pair, concat}
use viy.Base.Lex.{equal_bytes}
use viy.Base.Sets.{insert, member}
use viy.Facts.Schema.{DispatchMapFact}
use viy.Facts.Samples.{limits, one, two}
use viy.Facts.Sha256.{sha256_bytes}
use viy.Conflicts.Dispatch.{
  incompatible_code_region, contradiction, is_contradiction, matching_case, insert_targets,
  dispatch_targets, compare_dispatch_maps, dispatch_maps_contradict,
  compare_dispatch_maps-contradictions,
}
use viy.Conflicts.Compare.{compare_payloads}
use viy.Conflicts.Dispatch.{conflict}
use viy.Conflicts.Payloads.{region_kinds_incompatible}
use viy.Conflicts.Index.{digest, contradicted_payload_digests}
use viy.Conflicts.Marks.{hit}
use viy.Conflicts.Found.{contradicted_payload_digests-compare_payloads}
use viy.Conflicts.Detect.{Reported, reported, detected_conflicts}
use viy.Conflicts.Detected.{detected_conflicts-compare_payloads}
use viy.Conflicts.Samples.{code, data_inside, code_key, overlapping, overlapping-IsLedger}

-- The bytes from 0x1008 on cannot be both.
code_and_data :
    compare_payloads code data_inside
    ≡ conflict incompatible_code_region contradiction 0x1008 (some 0x1010) ∷ []
unfolding compare_payloads region_kinds_incompatible concat
code_and_data = refl

contradicted_payload_digests-compare_payloads_example :
    any (equal_bytes (sha256_bytes code_key)) (contradicted_payload_digests overlapping)
    ≡ any_pair
        (λ x y.
          any is_contradiction (compare_payloads x.value.payload y.value.payload)
          && (hit (sha256_bytes code_key) x || hit (sha256_bytes code_key) y))
        overlapping
contradicted_payload_digests-compare_payloads_example =
    contradicted_payload_digests-compare_payloads limits overlapping (sha256_bytes code_key)
      overlapping-IsLedger

-- A map that is complete, and one that has a further target.
abbrev whole : DispatchMapFact
whole = record { site = 0x900; cases = one ∷ two ∷ []; default_target = none; complete = true }

abbrev part : DispatchMapFact
part = record {
  site = 0x900;
  cases = record { selector = some 2; target = 0x3000 } ∷ [];
  default_target = none;
  complete = false;
}

whole_and_part : dispatch_maps_contradict whole part ≡ true
unfolding dispatch_maps_contradict matching_case dispatch_targets insert_targets insert member any
whole_and_part = refl

compare_dispatch_maps-contradictions_example :
    any is_contradiction (compare_dispatch_maps whole part) ≡ dispatch_maps_contradict whole part
compare_dispatch_maps-contradictions_example = compare_dispatch_maps-contradictions whole part

-- Is the conflict about a piece of code?
abbrev about_regions : Reported → Bool
about_regions r = elim r.issue.type [ incompatible_code_region ↦ true | _ ↦ false ]

detected_conflicts-compare_payloads_example :
    any about_regions (detected_conflicts overlapping)
    ≡ any_pair
        (λ x y.
          any
            (λ c. about_regions (reported (digest x) (digest y) c))
            (compare_payloads x.value.payload y.value.payload))
        overlapping
detected_conflicts-compare_payloads_example =
    detected_conflicts-compare_payloads limits overlapping about_regions overlapping-IsLedger
