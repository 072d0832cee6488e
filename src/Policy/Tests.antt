-- ===== src/Policy/Tests.antt =====
-- Small runs (src/evidence_apply_policy.cpp).
use viy.Base.{ℕ, ◌≡◌, ◌↔◌, ◌⊎◌, refl, true, false, some, [], ◌∷◌, map, arith}
use viy.Facts.Enums.{call_target, observed}
use viy.Facts.Schema.{Evidence, code_target}
use viy.Facts.Samples.{limits, evidence}
use viy.Store.Defs.{EvidenceRecord}
use viy.Store.Support.{is_corroborated, corroborating, TwoRuns}
use viy.Store.TwoRuns.{is_corroborated-TwoRuns}
use viy.Store.Samples.{two_runs}
use viy.Conflicts.Index.{contradicted_payload_digests}
use viy.Base.Any.{any, any_pair, concat}
use viy.Facts.Validate.{validate_payload, normal_payload}
use viy.Facts.Encode.{encode_normalized_payload}
use viy.Facts.Codec.{
  normalize_payload, encode_payload, normalize_evidence, normal_evidence, validate_evidence,
  encode_evidence, encode_normalized_evidence, validate_fact, normalize_fact,
}
use viy.Store.Defs.{add, add_at, keyed_fact, evidence_key}
use viy.Conflicts.Payloads.{region_kinds_incompatible}
use viy.Conflicts.Compare.{compare_payloads}
use viy.Policy.Defs.{
  EvidenceApplyPolicy, no_action, add_call_reference, has_strong_proof, trusted_proof,
  evidence_is_automatically_actionable, classify_record, records, is_contradicted,
  plan_evidence_application,
}
use viy.Policy.Authority.{Justified, classify_record-Justified}
use viy.Conflicts.Samples.{code_key, overlapping, overlapping-IsLedger}
use viy.Policy.Safety.{contested, Pairwise, plan_evidence_application-contested}
use viy.Policy.Plan.{decide_in, count_contradicted, plan_evidence_application-decisions}

-- An observation at 85% in a run.
abbrev seen : ℕ → Evidence
seen run = record evidence {
  proof = observed;
  confidence = 8500;
  scope = record (evidence.scope) { run_id = some run };
}

abbrev seen_twice : EvidenceRecord
seen_twice = record {
  payload =
      code_target (record { from = 0x1000; target = 0x2000; kind = call_target; unique = false });
  observations = seen 7 ∷ seen 8 ∷ [];
}

abbrev everything : EvidenceApplyPolicy
everything = record { allow_function_recovery = true; allow_unreachable_comments = true }

seen_twice_action : (classify_record seen_twice false everything).action ≡ add_call_reference
unfolding classify_record evidence_is_automatically_actionable has_strong_proof trusted_proof
    is_corroborated corroborating
seen_twice_action = refl

-- The same run twice is no corroboration.
once_action :
    (classify_record
      (record seen_twice { observations = seen 7 ∷ seen 7 ∷ [] })
      false
      everything).action
    ≡ no_action
unfolding classify_record evidence_is_automatically_actionable has_strong_proof trusted_proof
    is_corroborated corroborating
once_action = refl

is_corroborated-TwoRuns_example :
    (is_corroborated seen_twice 2 1 8000 ≡ true) ↔ TwoRuns 8000 (seen 7 ∷ seen 8 ∷ [])
is_corroborated-TwoRuns_example = is_corroborated-TwoRuns seen_twice 8000 (omega arith)

classify_record-Justified_example :
    Justified seen_twice false everything (classify_record seen_twice false everything).action
classify_record-Justified_example = classify_record-Justified seen_twice false everything

plan_evidence_application-decisions_example :
    ((plan_evidence_application two_runs everything).decisions
      ≡ map (decide_in two_runs everything) (records two_runs))
    × ((plan_evidence_application two_runs everything).contradiction_suppressed
        ≡ count_contradicted
            (is_contradicted (contradicted_payload_digests two_runs))
            (records two_runs))
plan_evidence_application-decisions_example =
    plan_evidence_application-decisions two_runs everything

-- Bytes that are said to be code and to be data.
code_in_data : contested overlapping code_key ≡ true
unfolding any any_pair concat compare_payloads region_kinds_incompatible add add_at keyed_fact
    normalize_fact normalize_payload normalize_evidence encode_payload encode_evidence validate_fact
    normal_evidence encode_normalized_evidence validate_evidence validate_payload normal_payload
    encode_normalized_payload evidence_key
code_in_data = refl

plan_evidence_application-contested_example :
    Pairwise
      (λ e decision. (decision.action ≡ no_action) ⊎ (contested overlapping e.key ≡ false))
      overlapping
      (plan_evidence_application overlapping everything).decisions
plan_evidence_application-contested_example =
    plan_evidence_application-contested limits overlapping everything overlapping-IsLedger
