-- ===== src/Policy/Defs.antt =====
-- The application policy (src/evidence_apply_policy.hpp and src/evidence_apply_policy.cpp).
use viy.Base.{
  ℕ, suc, Bool, true, false, Option, none, some, ◌&&◌, ◌||◌, List, [], ◌∷◌, ◌++◌, map, leb,
  if◌then◌else◌,
}
use viy.Facts.Enums.{
  ProofKind, unknown_proof, observed, static_proof, symbolic_proof, cross_run_corroboration,
  heuristic, imported, user_asserted, CodeTargetKind, unknown_target, fallthrough_target,
  call_target, jump_target, return_target, exception_target, table_entry, Reachability,
  not_observed, reached, proven_unreachable,
}
use viy.Facts.Schema.{
  Evidence, FactPayload, code_target, branch_reachability, memory_access, memory_value,
  string_candidate, function_candidate, function_trait, code_region, dispatch_map, cfg_candidate,
  function_outcome, register_value, call_observation,
}
use viy.Facts.Codec.{encode_payload}
use viy.Facts.Sha256.{sha256_bytes}
use viy.Base.Any.{any}
use viy.Base.Lex.{equal_bytes}
use viy.Conflicts.Index.{FactDigest, contradicted_payload_digests}
use viy.Store.Defs.{EvidenceRecord, EvidenceStore}
use viy.Store.Support.{is_corroborated}

abbrev pub automatic_proof_confidence : ℕ
automatic_proof_confidence = 9000

abbrev pub corroborated_run_confidence : ℕ
corroborated_run_confidence = 8000

abbrev pub corroborated_run_floor : ℕ
corroborated_run_floor = 2

abbrev pub function_candidate_static_confidence : ℕ
function_candidate_static_confidence = 7500

pub record EvidenceApplyPolicy : Type 0 where
  pub allow_function_recovery : Bool
  pub allow_unreachable_comments : Bool

pub data EvidenceActionKind : Type 0 where
  no_action add_call_reference add_jump_reference create_function comment_proven_unreachable :
      EvidenceActionKind

pub data EvidenceDecisionReason : Type 0 where
  actionable contradicted_reason below_trust_threshold disabled_by_configuration
        unsupported_target_kind unsupported_payload_kind non_actionable_reachability :
      EvidenceDecisionReason

pub record EvidenceApplyDecision : Type 0 where
  pub payload : FactPayload
  pub action : EvidenceActionKind
  pub reason : EvidenceDecisionReason

-- Without the statistics of the scan for contradictions.
pub record EvidenceApplyPlan : Type 0 where
  pub decisions : List EvidenceApplyDecision
  pub contradiction_suppressed : ℕ
  pub below_trust : ℕ
  pub disabled : ℕ

unfoldable pub trusted_proof : ProofKind → Bool
trusted_proof static_proof = true
trusted_proof symbolic_proof = true
trusted_proof user_asserted = true
trusted_proof unknown_proof = false
trusted_proof observed = false
trusted_proof cross_run_corroboration = false
trusted_proof heuristic = false
trusted_proof imported = false

unfoldable pub has_strong_proof : List Evidence → Bool
unfolding trusted_proof
has_strong_proof [] = false
has_strong_proof (e ∷ observations) =
    trusted_proof e.proof && leb automatic_proof_confidence e.confidence
    || has_strong_proof observations

unfoldable pub is_static : ProofKind → Bool
is_static static_proof = true
is_static symbolic_proof = false
is_static user_asserted = false
is_static unknown_proof = false
is_static observed = false
is_static cross_run_corroboration = false
is_static heuristic = false
is_static imported = false

unfoldable pub has_static_proof : List Evidence → Bool
unfolding is_static
has_static_proof [] = false
has_static_proof (e ∷ observations) =
    is_static e.proof && leb function_candidate_static_confidence e.confidence
    || has_static_proof observations

unfoldable pub evidence_is_automatically_actionable : EvidenceRecord → Bool
evidence_is_automatically_actionable r =
    has_strong_proof r.observations
    || is_corroborated r corroborated_run_floor 1 corroborated_run_confidence

unfoldable pub function_candidate_is_actionable : EvidenceRecord → Bool
function_candidate_is_actionable r =
    has_static_proof r.observations
    || is_corroborated r corroborated_run_floor 1 corroborated_run_confidence

abbrev decided :
    EvidenceRecord → EvidenceActionKind → EvidenceDecisionReason → EvidenceApplyDecision
decided r action reason = record { payload = r.payload; action = action; reason = reason }

-- A reference of this kind, when the evidence is strong enough.
abbrev if_trusted : EvidenceRecord → EvidenceActionKind → EvidenceApplyDecision
if_trusted r action =
    if evidence_is_automatically_actionable r
    then decided r action actionable
    else decided r no_action below_trust_threshold

abbrev pub classify_target : EvidenceRecord → CodeTargetKind → EvidenceApplyDecision
classify_target r call_target = if_trusted r add_call_reference
classify_target r jump_target = if_trusted r add_jump_reference
classify_target r table_entry = if_trusted r add_jump_reference
classify_target r unknown_target = decided r no_action unsupported_target_kind
classify_target r fallthrough_target = decided r no_action unsupported_target_kind
classify_target r return_target = decided r no_action unsupported_target_kind
classify_target r exception_target = decided r no_action unsupported_target_kind

abbrev pub classify_function : EvidenceRecord → EvidenceApplyPolicy → EvidenceApplyDecision
classify_function r policy =
    if policy.allow_function_recovery
    then (if function_candidate_is_actionable r
        then decided r create_function actionable
        else decided r no_action below_trust_threshold)
    else decided r no_action disabled_by_configuration

abbrev pub classify_reachability :
    EvidenceRecord → Reachability → EvidenceApplyPolicy → EvidenceApplyDecision
classify_reachability r not_observed policy = decided r no_action non_actionable_reachability
classify_reachability r reached policy = decided r no_action non_actionable_reachability
classify_reachability r proven_unreachable policy =
    if policy.allow_unreachable_comments
    then if_trusted r comment_proven_unreachable
    else decided r no_action disabled_by_configuration

abbrev pub classify_payload :
    EvidenceRecord → FactPayload → EvidenceApplyPolicy → EvidenceApplyDecision
classify_payload r (code_target f) policy = classify_target r f.kind
classify_payload r (function_candidate f) policy = classify_function r policy
classify_payload r (branch_reachability f) policy = classify_reachability r f.state policy
classify_payload r (memory_access f) policy = decided r no_action unsupported_payload_kind
classify_payload r (memory_value f) policy = decided r no_action unsupported_payload_kind
classify_payload r (string_candidate f) policy = decided r no_action unsupported_payload_kind
classify_payload r (function_trait f) policy = decided r no_action unsupported_payload_kind
classify_payload r (code_region f) policy = decided r no_action unsupported_payload_kind
classify_payload r (dispatch_map f) policy = decided r no_action unsupported_payload_kind
classify_payload r (cfg_candidate f) policy = decided r no_action unsupported_payload_kind
classify_payload r (function_outcome f) policy = decided r no_action unsupported_payload_kind
classify_payload r (register_value f) policy = decided r no_action unsupported_payload_kind
classify_payload r (call_observation f) policy = decided r no_action unsupported_payload_kind

unfoldable pub classify_record : EvidenceRecord → Bool → EvidenceApplyPolicy → EvidenceApplyDecision
classify_record r contradicted policy =
    if contradicted
    then decided r no_action contradicted_reason
    else classify_payload r r.payload policy

unfoldable pub account_decision : EvidenceDecisionReason → EvidenceApplyPlan → EvidenceApplyPlan
account_decision contradicted_reason plan = record plan {
  contradiction_suppressed = suc plan.contradiction_suppressed;
}
account_decision below_trust_threshold plan = record plan { below_trust = suc plan.below_trust }
account_decision disabled_by_configuration plan = record plan { disabled = suc plan.disabled }
account_decision actionable plan = plan
account_decision unsupported_target_kind plan = plan
account_decision unsupported_payload_kind plan = plan
account_decision non_actionable_reachability plan = plan

-- EvidenceStore::records
abbrev pub records : EvidenceStore → List EvidenceRecord
records store = map (λ entry. entry.value) store

unfoldable pub plan_loop :
    (FactPayload → Bool)
    → EvidenceApplyPolicy
    → List EvidenceRecord
    → EvidenceApplyPlan
    → EvidenceApplyPlan
unfolding classify_record account_decision
plan_loop contradicted policy [] plan = plan
plan_loop contradicted policy (r ∷ rest) plan =
    let decision : EvidenceApplyDecision = classify_record r (contradicted r.payload) policy in
    let accounted : EvidenceApplyPlan = account_decision decision.reason plan in
    plan_loop contradicted policy rest
      (record accounted { decisions = accounted.decisions ++ decision ∷ [] })

abbrev pub empty_plan : EvidenceApplyPlan
empty_plan = record { decisions = []; contradiction_suppressed = 0; below_trust = 0; disabled = 0 }

unfoldable pub stable_digest : FactPayload → Option FactDigest
stable_digest payload = elim (encode_payload payload) [
  | none ↦ none
  | some bytes ↦ some (sha256_bytes bytes)
]

-- A payload without a digest counts as contradicted.
unfoldable pub is_contradicted : List FactDigest → FactPayload → Bool
unfolding any
is_contradicted contradicted payload = elim (stable_digest payload) [
  | none ↦ true
  | some digest ↦ any (equal_bytes digest) contradicted
]

unfoldable pub plan_evidence_application : EvidenceStore → EvidenceApplyPolicy → EvidenceApplyPlan
unfolding plan_loop is_contradicted contradicted_payload_digests
plan_evidence_application store policy =
    plan_loop (is_contradicted (contradicted_payload_digests store)) policy (records store)
      empty_plan
