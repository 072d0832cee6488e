-- ===== src/Policy/Plan.antt =====
-- The plan has one decision per record (src/evidence_apply_policy.cpp).
use viy.Base.{
  ℕ, suc, ◌+◌, ◌≡◌, refl, ap, ◌∙◌, Bool, true, false, List, [], ◌∷◌, ◌++◌, map, if◌then◌else◌,
  if_rule, arith,
}
use viy.Facts.Enums.{
  CodeTargetKind, unknown_target, fallthrough_target, call_target, jump_target, return_target,
  exception_target, table_entry, Reachability, not_observed, reached, proven_unreachable,
}
use viy.Facts.Schema.{
  FactPayload, code_target, branch_reachability, memory_access, memory_value, string_candidate,
  function_candidate, function_trait, code_region, dispatch_map, cfg_candidate, function_outcome,
  register_value, call_observation,
}
use viy.Store.Defs.{EvidenceRecord, EvidenceStore}
use viy.Conflicts.Index.{contradicted_payload_digests}
use viy.Policy.Defs.{
  evidence_is_automatically_actionable, function_candidate_is_actionable, EvidenceApplyPolicy,
  EvidenceApplyDecision, EvidenceApplyPlan, EvidenceDecisionReason, contradicted_reason, actionable,
  below_trust_threshold, disabled_by_configuration, unsupported_target_kind,
  unsupported_payload_kind, non_actionable_reachability, classify_target, classify_function,
  classify_reachability, classify_payload, classify_record, account_decision, records, plan_loop,
  empty_plan, is_contradicted, plan_evidence_application,
}

-- The decision on a record, where `contradicted` tells which payloads are contradicted.
abbrev pub decide :
    (FactPayload → Bool) → EvidenceApplyPolicy → EvidenceRecord → EvidenceApplyDecision
decide contradicted policy r = classify_record r (contradicted r.payload) policy

unfoldable pub count_contradicted : (FactPayload → Bool) → List EvidenceRecord → ℕ
count_contradicted contradicted [] = 0
count_contradicted contradicted (r ∷ rest) =
    let others = count_contradicted contradicted rest in
    if contradicted r.payload then suc others else others

account-decisions :
    (reason : EvidenceDecisionReason) (plan : EvidenceApplyPlan)
    → (account_decision reason plan).decisions ≡ plan.decisions
unfolding account_decision
account-decisions actionable plan = refl
account-decisions contradicted_reason plan = refl
account-decisions below_trust_threshold plan = refl
account-decisions disabled_by_configuration plan = refl
account-decisions unsupported_target_kind plan = refl
account-decisions unsupported_payload_kind plan = refl
account-decisions non_actionable_reachability plan = refl

append_one {ℓ} :
    {A : Type ℓ} (xs : List A) (x : A) (ys : List A) → (xs ++ x ∷ []) ++ ys ≡ xs ++ x ∷ ys
append_one [] x ys = refl
append_one (z ∷ xs) x ys = ap (λ t. z ∷ t) (append_one xs x ys)

append_nothing {ℓ} : {A : Type ℓ} (xs : List A) → xs ≡ xs ++ []
append_nothing [] = refl
append_nothing (z ∷ xs) = ap (λ t. z ∷ t) (append_nothing xs)

plan_loop-decisions :
    (contradicted : FactPayload → Bool) (policy : EvidenceApplyPolicy) (rs : List EvidenceRecord)
    (plan : EvidenceApplyPlan)
    → (plan_loop contradicted policy rs plan).decisions
      ≡ plan.decisions ++ map (decide contradicted policy) rs
unfolding plan_loop
plan_loop-decisions contradicted policy [] plan = append_nothing plan.decisions
plan_loop-decisions contradicted policy (r ∷ rs) plan =
    let d : EvidenceApplyDecision = decide contradicted policy r in
    let accounted : EvidenceApplyPlan = account_decision d.reason plan in
    plan_loop-decisions contradicted policy rs
      (record accounted { decisions = accounted.decisions ++ d ∷ [] })
    ∙ append_one accounted.decisions d (map (decide contradicted policy) rs)
    ∙ ap (λ ds. ds ++ d ∷ map (decide contradicted policy) rs) (account-decisions d.reason plan)

-- A reason that is not the contradiction.
unfoldable Other : EvidenceDecisionReason → Type 0
Other contradicted_reason = ⊥
Other actionable = Unit
Other below_trust_threshold = Unit
Other disabled_by_configuration = Unit
Other unsupported_target_kind = Unit
Other unsupported_payload_kind = Unit
Other non_actionable_reachability = Unit

account-Other :
    (reason : EvidenceDecisionReason) (plan : EvidenceApplyPlan)
    → Other reason
    → (account_decision reason plan).contradiction_suppressed ≡ plan.contradiction_suppressed
unfolding account_decision Other
account-Other contradicted_reason plan o = absurd o
account-Other actionable plan o = refl
account-Other below_trust_threshold plan o = refl
account-Other disabled_by_configuration plan o = refl
account-Other unsupported_target_kind plan o = refl
account-Other unsupported_payload_kind plan o = refl
account-Other non_actionable_reachability plan o = refl

classify_target-Other :
    (r : EvidenceRecord) (kind : CodeTargetKind) → Other (classify_target r kind).reason
unfolding Other
classify_target-Other r call_target =
    if_rule (λ (d : EvidenceApplyDecision). Other d.reason) (evidence_is_automatically_actionable r)
      _ _ (λ strong. tt) (λ weak. tt)
classify_target-Other r jump_target =
    if_rule (λ (d : EvidenceApplyDecision). Other d.reason) (evidence_is_automatically_actionable r)
      _ _ (λ strong. tt) (λ weak. tt)
classify_target-Other r table_entry =
    if_rule (λ (d : EvidenceApplyDecision). Other d.reason) (evidence_is_automatically_actionable r)
      _ _ (λ strong. tt) (λ weak. tt)
classify_target-Other r unknown_target = tt
classify_target-Other r fallthrough_target = tt
classify_target-Other r return_target = tt
classify_target-Other r exception_target = tt

classify_function-Other :
    (r : EvidenceRecord) (policy : EvidenceApplyPolicy) → Other (classify_function r policy).reason
unfolding Other
classify_function-Other r policy =
    if_rule (λ (d : EvidenceApplyDecision). Other d.reason) policy.allow_function_recovery _ _
      (λ allowed.
        if_rule (λ (d : EvidenceApplyDecision). Other d.reason) (function_candidate_is_actionable r)
          _ _ (λ found. tt) (λ weak. tt))
      (λ disabled. tt)

classify_reachability-Other :
    (r : EvidenceRecord) (state : Reachability) (policy : EvidenceApplyPolicy)
    → Other (classify_reachability r state policy).reason
unfolding Other
classify_reachability-Other r not_observed policy = tt
classify_reachability-Other r reached policy = tt
classify_reachability-Other r proven_unreachable policy =
    if_rule (λ (d : EvidenceApplyDecision). Other d.reason) policy.allow_unreachable_comments _ _
      (λ allowed.
        if_rule (λ (d : EvidenceApplyDecision). Other d.reason)
          (evidence_is_automatically_actionable r) _ _ (λ strong. tt) (λ weak. tt))
      (λ disabled. tt)

classify_payload-Other :
    (r : EvidenceRecord) (payload : FactPayload) (policy : EvidenceApplyPolicy)
    → Other (classify_payload r payload policy).reason
unfolding Other
classify_payload-Other r (code_target f) policy = classify_target-Other r f.kind
classify_payload-Other r (function_candidate f) policy = classify_function-Other r policy
classify_payload-Other r (branch_reachability f) policy =
    classify_reachability-Other r f.state policy
classify_payload-Other r (memory_access f) policy = tt
classify_payload-Other r (memory_value f) policy = tt
classify_payload-Other r (string_candidate f) policy = tt
classify_payload-Other r (function_trait f) policy = tt
classify_payload-Other r (code_region f) policy = tt
classify_payload-Other r (dispatch_map f) policy = tt
classify_payload-Other r (cfg_candidate f) policy = tt
classify_payload-Other r (function_outcome f) policy = tt
classify_payload-Other r (register_value f) policy = tt
classify_payload-Other r (call_observation f) policy = tt

account_one :
    (r : EvidenceRecord) (contradicted : Bool) (policy : EvidenceApplyPolicy)
    (plan : EvidenceApplyPlan)
    → (account_decision
        (classify_record r contradicted policy).reason
        plan).contradiction_suppressed
      ≡ (if contradicted then suc plan.contradiction_suppressed else plan.contradiction_suppressed)
unfolding classify_record account_decision
account_one r true policy plan = refl
account_one r false policy plan =
    account-Other (classify_payload r r.payload policy).reason plan
      (classify_payload-Other r r.payload policy)

plan_loop-suppressed :
    (contradicted : FactPayload → Bool) (policy : EvidenceApplyPolicy) (rs : List EvidenceRecord)
    (plan : EvidenceApplyPlan)
    → (plan_loop contradicted policy rs plan).contradiction_suppressed
      ≡ plan.contradiction_suppressed + count_contradicted contradicted rs
unfolding plan_loop count_contradicted
plan_loop-suppressed contradicted policy [] plan = omega arith
plan_loop-suppressed contradicted policy (r ∷ rs) plan =
    let d : EvidenceApplyDecision = decide contradicted policy r in
    let accounted : EvidenceApplyPlan = account_decision d.reason plan in
    plan_loop-suppressed contradicted policy rs
      (record accounted { decisions = accounted.decisions ++ d ∷ [] })
    ∙ ap (λ n. n + count_contradicted contradicted rs)
        (account_one r (contradicted r.payload) policy plan)
    ∙ add_if (contradicted r.payload) plan.contradiction_suppressed
        (count_contradicted contradicted rs)
  where
    add_if : (b : Bool) (m n : ℕ) → (if b then suc m else m) + n ≡ m + (if b then suc n else n)
    add_if b m n = ground arith

-- The test that the plan uses.
abbrev pub decide_in : EvidenceStore → EvidenceApplyPolicy → EvidenceRecord → EvidenceApplyDecision
decide_in store policy r = decide (is_contradicted (contradicted_payload_digests store)) policy r

-- The plan has the decision on each record of the store, in the order of the store, and the number of
-- suppressed records is that of the contradicted.
pub plan_evidence_application-decisions :
    (store : EvidenceStore) (policy : EvidenceApplyPolicy)
    → ((plan_evidence_application store policy).decisions
        ≡ map (decide_in store policy) (records store))
      × ((plan_evidence_application store policy).contradiction_suppressed
          ≡ count_contradicted
              (is_contradicted (contradicted_payload_digests store))
              (records store))
unfolding plan_evidence_application
plan_evidence_application-decisions store policy = (
  plan_loop-decisions (is_contradicted (contradicted_payload_digests store)) policy (records store)
      empty_plan,
  plan_loop-suppressed (is_contradicted (contradicted_payload_digests store)) policy (records store)
        empty_plan
      ∙ from_zero (
          count_contradicted (is_contradicted (contradicted_payload_digests store))
            (records store)),
)
  where
    from_zero : (n : ℕ) → 0 + n ≡ n
    from_zero n = omega arith
