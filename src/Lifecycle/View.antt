-- ===== src/Lifecycle/View.antt =====
-- The active view of a ledger (src/evidence_lifecycle.cpp).
use viy.Base.{
  ℕ, ◌≡◌, refl, sym, ap, ◌∙◌, subst, Bool, false, ◌||◌, List, [], ◌∷◌, All, if◌then◌else◌,
  Bool-cases, inl, inr, arith,
}
use viy.Facts.Bytes.{FactCodecLimits}
use viy.Facts.Schema.{AnalysisFact}
use viy.Store.Defs.{
  EvidenceStore, MergeReport, count_disposition, empty_report, flattened_facts, add, add_all,
  contains,
}
use viy.Store.Invariant.{IsLedger, Storable}
use viy.Store.Sequence.{any_fact, add_all-IsLedger, contains-add_all}
use viy.Store.Merge.{flattened_facts-Storable}
use viy.Lifecycle.Defs.{ActiveEvidencePolicy, is_active, add_active, view}

-- The facts of a history that the policy takes.
unfoldable pub active_facts : ActiveEvidencePolicy → List AnalysisFact → List AnalysisFact
active_facts policy [] = []
active_facts policy (fact ∷ facts) =
    let rest = active_facts policy facts in if is_active policy fact then fact ∷ rest else rest

active_facts-All {κ} :
    (P : AnalysisFact → Type κ) (policy : ActiveEvidencePolicy) (facts : List AnalysisFact)
    → All P facts
    → All P (active_facts policy facts)
unfolding active_facts
active_facts-All P policy [] a = tt
active_facts-All P policy (f ∷ facts) (h, a) = elim (Bool-cases (is_active policy f)) [
  | inl on ↦ rw on (h, active_facts-All P policy facts a)
  | inr off ↦ rw off (active_facts-All P policy facts a)
]

add_active-add_all :
    (policy : ActiveEvidencePolicy) (facts : List AnalysisFact) (report : MergeReport)
    (store : EvidenceStore)
    → add_active policy facts store ≡ (add_all (active_facts policy facts) (report, store)).1
unfolding add_active active_facts add_all
add_active-add_all policy [] report store = refl
add_active-add_all policy (f ∷ facts) report store = elim (Bool-cases (is_active policy f)) [
  | inl on ↦
      rw on
        (add_active-add_all policy facts (count_disposition (add f store).0 report) (add f store).1)
  | inr off ↦ rw off (add_active-add_all policy facts report store)
]

empty-IsLedger : (limits : FactCodecLimits) → IsLedger limits []
unfolding IsLedger
empty-IsLedger limits = (tt, tt)

-- The active view of a ledger is a ledger, and has exactly the observations of the ledger's active
-- facts.
pub contains-view :
    (limits : FactCodecLimits) (policy : ActiveEvidencePolicy) (history : EvidenceStore)
    → IsLedger limits history
    → IsLedger limits (view policy history)
      × ((payload_key key : List ℕ)
          → contains payload_key key (view policy history)
            ≡ any_fact payload_key key (active_facts policy (flattened_facts history)))
unfolding view contains
contains-view limits policy history h =
    let facts = active_facts policy (flattened_facts history) in
    let fit =
      active_facts-All (Storable limits) policy (flattened_facts history)
        (flattened_facts-Storable limits history h) in
    let same = add_active-add_all policy (flattened_facts history) empty_report [] in
    (
      subst (IsLedger limits) (sym same)
          (add_all-IsLedger limits facts empty_report [] fit (empty-IsLedger limits)),
      λ pk ek.
          ap (contains pk ek) same
          ∙ contains-add_all limits pk ek facts empty_report [] fit (empty-IsLedger limits)
          ∙ nothing_else (any_fact pk ek facts),
    )
  where
    nothing_else : (b : Bool) → (b || false) ≡ b
    nothing_else b = ground arith
