-- ===== src/Policy/Authority.antt =====
-- What justifies an automatic change (src/evidence_apply_policy.cpp).
use viy.Base.{
  ◌≤◌, ◌≡◌, refl, ◌⊎◌, inl, inr, Bool, true, false, ◌||◌, ◌&&◌, List, [], ◌∷◌, leb→le, if_rule,
  arith,
}
use viy.Facts.Enums.{
  ProofKind, unknown_proof, observed, static_proof, symbolic_proof, cross_run_corroboration,
  heuristic, imported, user_asserted, CodeTargetKind, unknown_target, fallthrough_target,
  call_target, jump_target, return_target, exception_target, table_entry, Reachability,
  not_observed, reached, proven_unreachable,
}
use viy.Facts.Schema.{
  Evidence, CodeTargetFact, BranchReachabilityFact, FunctionCandidateFact, FactPayload, code_target,
  branch_reachability, memory_access, memory_value, string_candidate, function_candidate,
  function_trait, code_region, dispatch_map, cfg_candidate, function_outcome, register_value,
  call_observation,
}
use viy.Store.Defs.{EvidenceRecord}
use viy.Store.Support.{Some, TwoRuns}
use viy.Store.TwoRuns.{is_corroborated-TwoRuns}
use viy.Policy.Defs.{
  trusted_proof, has_strong_proof, is_static, has_static_proof,
  evidence_is_automatically_actionable, function_candidate_is_actionable, EvidenceApplyPolicy,
  EvidenceActionKind, EvidenceApplyDecision, no_action, add_call_reference, add_jump_reference,
  create_function, comment_proven_unreachable, classify_target, classify_function,
  classify_reachability, classify_payload, classify_record,
}

-- A static, symbolic or user-asserted proof with at least 90% confidence.
abbrev pub Strong : Evidence → Type 0
Strong e =
    ((e.proof ≡ static_proof) ⊎ (e.proof ≡ symbolic_proof) ⊎ (e.proof ≡ user_asserted))
    × (9000 ≤ e.confidence)

-- A static proof with at least 75% confidence.
abbrev pub StaticallyFound : Evidence → Type 0
StaticallyFound e = (e.proof ≡ static_proof) × (7500 ≤ e.confidence)

abbrev pub StrongRecord : EvidenceRecord → Type 0
StrongRecord r = Some Strong r.observations ⊎ TwoRuns 8000 r.observations

-- What an action rests on.
unfoldable pub Justified : EvidenceRecord → Bool → EvidenceApplyPolicy → EvidenceActionKind → Type 0
Justified r contradicted policy no_action = Unit
Justified r contradicted policy add_call_reference =
    (contradicted ≡ false)
    × ((f : CodeTargetFact) × (r.payload ≡ code_target f) × (f.kind ≡ call_target))
    × StrongRecord r
Justified r contradicted policy add_jump_reference =
    (contradicted ≡ false)
    × ((f : CodeTargetFact) × (r.payload ≡ code_target f)
        × ((f.kind ≡ jump_target) ⊎ (f.kind ≡ table_entry)))
    × StrongRecord r
Justified r contradicted policy create_function =
    (contradicted ≡ false)
    × ((f : FunctionCandidateFact) × (r.payload ≡ function_candidate f))
    × (policy.allow_function_recovery ≡ true)
    × (Some StaticallyFound r.observations ⊎ TwoRuns 8000 r.observations)
Justified r contradicted policy comment_proven_unreachable =
    (contradicted ≡ false)
    × ((f : BranchReachabilityFact) × (r.payload ≡ branch_reachability f)
        × (f.state ≡ proven_unreachable))
    × (policy.allow_unreachable_comments ≡ true)
    × StrongRecord r

trusted_proof_cases :
    (p : ProofKind)
    → trusted_proof p ≡ true
    → (p ≡ static_proof) ⊎ (p ≡ symbolic_proof) ⊎ (p ≡ user_asserted)
unfolding trusted_proof
trusted_proof_cases static_proof h = inl refl
trusted_proof_cases symbolic_proof h = inr (inl refl)
trusted_proof_cases user_asserted h = inr (inr refl)
trusted_proof_cases unknown_proof h = cc
trusted_proof_cases observed h = cc
trusted_proof_cases cross_run_corroboration h = cc
trusted_proof_cases heuristic h = cc
trusted_proof_cases imported h = cc

is_static_case : (p : ProofKind) → is_static p ≡ true → p ≡ static_proof
unfolding is_static
is_static_case static_proof h = refl
is_static_case symbolic_proof h = cc
is_static_case user_asserted h = cc
is_static_case unknown_proof h = cc
is_static_case observed h = cc
is_static_case cross_run_corroboration h = cc
is_static_case heuristic h = cc
is_static_case imported h = cc

either : (a b : Bool) → (a || b) ≡ true → (a ≡ true) ⊎ (b ≡ true)
either true b h = inl refl
either false b h = inr h

both_first : (a b : Bool) → (a && b) ≡ true → a ≡ true
both_first a b h = ground arith

both_second : (a b : Bool) → (a && b) ≡ true → b ≡ true
both_second a b h = ground arith

has_strong_proof-Some :
    (observations : List Evidence) → has_strong_proof observations ≡ true → Some Strong observations
unfolding has_strong_proof Some
has_strong_proof-Some [] h = absurd cc
has_strong_proof-Some (e ∷ observations) h = elim (either _ (has_strong_proof observations) h) [
  | inl here ↦ inl (
    trusted_proof_cases e.proof (both_first _ _ here),
    leb→le 9000 e.confidence (both_second (trusted_proof e.proof) _ here),
  )
  | inr later ↦ inr (has_strong_proof-Some observations later)
]

has_static_proof-Some :
    (observations : List Evidence)
    → has_static_proof observations ≡ true
    → Some StaticallyFound observations
unfolding has_static_proof Some
has_static_proof-Some [] h = absurd cc
has_static_proof-Some (e ∷ observations) h = elim (either _ (has_static_proof observations) h) [
  | inl here ↦ inl (
    is_static_case e.proof (both_first _ _ here),
    leb→le 7500 e.confidence (both_second (is_static e.proof) _ here),
  )
  | inr later ↦ inr (has_static_proof-Some observations later)
]

strong_record :
    (r : EvidenceRecord) → evidence_is_automatically_actionable r ≡ true → StrongRecord r
unfolding evidence_is_automatically_actionable
strong_record r h = elim (either (has_strong_proof r.observations) _ h) [
  | inl proof ↦ inl (has_strong_proof-Some r.observations proof)
  | inr runs ↦ inr ((is_corroborated-TwoRuns r 8000 (omega arith)).0 runs)
]

found_record :
    (r : EvidenceRecord)
    → function_candidate_is_actionable r ≡ true
    → Some StaticallyFound r.observations ⊎ TwoRuns 8000 r.observations
unfolding function_candidate_is_actionable
found_record r h = elim (either (has_static_proof r.observations) _ h) [
  | inl proof ↦ inl (has_static_proof-Some r.observations proof)
  | inr runs ↦ inr ((is_corroborated-TwoRuns r 8000 (omega arith)).0 runs)
]

classify_target-Justified :
    (r : EvidenceRecord) (policy : EvidenceApplyPolicy) (f : CodeTargetFact) (kind : CodeTargetKind)
    → r.payload ≡ code_target f
    → f.kind ≡ kind
    → Justified r false policy (classify_target r kind).action
unfolding Justified
classify_target-Justified r policy f call_target e k =
    if_rule (λ (d : EvidenceApplyDecision). Justified r false policy d.action)
      (evidence_is_automatically_actionable r) _ _
      (λ strong. (refl, (f, e, k), strong_record r strong)) (λ weak. tt)
classify_target-Justified r policy f jump_target e k =
    if_rule (λ (d : EvidenceApplyDecision). Justified r false policy d.action)
      (evidence_is_automatically_actionable r) _ _
      (λ strong. (refl, (f, e, inl k), strong_record r strong)) (λ weak. tt)
classify_target-Justified r policy f table_entry e k =
    if_rule (λ (d : EvidenceApplyDecision). Justified r false policy d.action)
      (evidence_is_automatically_actionable r) _ _
      (λ strong. (refl, (f, e, inr k), strong_record r strong)) (λ weak. tt)
classify_target-Justified r policy f unknown_target e k = tt
classify_target-Justified r policy f fallthrough_target e k = tt
classify_target-Justified r policy f return_target e k = tt
classify_target-Justified r policy f exception_target e k = tt

classify_function-Justified :
    (r : EvidenceRecord) (policy : EvidenceApplyPolicy) (f : FunctionCandidateFact)
    → r.payload ≡ function_candidate f
    → Justified r false policy (classify_function r policy).action
unfolding Justified
classify_function-Justified r policy f e =
    if_rule (λ (d : EvidenceApplyDecision). Justified r false policy d.action)
      policy.allow_function_recovery _ _
      (λ allowed.
        if_rule (λ (d : EvidenceApplyDecision). Justified r false policy d.action)
          (function_candidate_is_actionable r) _ _
          (λ found. (refl, (f, e), allowed, found_record r found)) (λ weak. tt))
      (λ disabled. tt)

classify_reachability-Justified :
    (r : EvidenceRecord) (policy : EvidenceApplyPolicy) (f : BranchReachabilityFact)
    (state : Reachability)
    → r.payload ≡ branch_reachability f
    → f.state ≡ state
    → Justified r false policy (classify_reachability r state policy).action
unfolding Justified
classify_reachability-Justified r policy f not_observed e k = tt
classify_reachability-Justified r policy f reached e k = tt
classify_reachability-Justified r policy f proven_unreachable e k =
    if_rule (λ (d : EvidenceApplyDecision). Justified r false policy d.action)
      policy.allow_unreachable_comments _ _
      (λ allowed.
        if_rule (λ (d : EvidenceApplyDecision). Justified r false policy d.action)
          (evidence_is_automatically_actionable r) _ _
          (λ strong. (refl, (f, e, k), allowed, strong_record r strong)) (λ weak. tt))
      (λ disabled. tt)

classify_payload-Justified :
    (r : EvidenceRecord) (policy : EvidenceApplyPolicy) (payload : FactPayload)
    → r.payload ≡ payload
    → Justified r false policy (classify_payload r payload policy).action
unfolding Justified
classify_payload-Justified r policy (code_target f) e =
    classify_target-Justified r policy f f.kind e refl
classify_payload-Justified r policy (function_candidate f) e =
    classify_function-Justified r policy f e
classify_payload-Justified r policy (branch_reachability f) e =
    classify_reachability-Justified r policy f f.state e refl
classify_payload-Justified r policy (memory_access f) e = tt
classify_payload-Justified r policy (memory_value f) e = tt
classify_payload-Justified r policy (string_candidate f) e = tt
classify_payload-Justified r policy (function_trait f) e = tt
classify_payload-Justified r policy (code_region f) e = tt
classify_payload-Justified r policy (dispatch_map f) e = tt
classify_payload-Justified r policy (cfg_candidate f) e = tt
classify_payload-Justified r policy (function_outcome f) e = tt
classify_payload-Justified r policy (register_value f) e = tt
classify_payload-Justified r policy (call_observation f) e = tt

-- A record leads to a change of the database only if it is not contradicted, is of the kind that the
-- change is for, is allowed by the configuration, and has a strong proof (for a new function a static
-- proof of lower confidence will do) or confident observations of two different runs.
pub classify_record-Justified :
    (r : EvidenceRecord) (contradicted : Bool) (policy : EvidenceApplyPolicy)
    → Justified r contradicted policy (classify_record r contradicted policy).action
unfolding classify_record Justified
classify_record-Justified r true policy = tt
classify_record-Justified r false policy = classify_payload-Justified r policy r.payload refl
