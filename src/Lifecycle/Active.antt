-- ===== src/Lifecycle/Active.antt =====
-- Which facts an active view keeps (ActiveEvidencePolicy of src/evidence_lifecycle.cpp).
use viy.Base.{
  ℕ, ◌≡◌, ◌⊎◌, ◌↔◌, refl, sym, ap, ◌∙◌, true, ◌&&◌, ◌||◌, List, [], ◌∷◌, Bool-cases, inl, inr,
  arith,
}
use viy.Facts.Schema.{AnalysisFact}
use viy.Facts.Bytes.{FactCodecLimits}
use viy.Store.Defs.{EvidenceStore, flattened_facts, contains}
use viy.Store.Invariant.{IsLedger}
use viy.Store.Contents.{is_fact}
use viy.Store.Sequence.{any_fact}
use viy.Lifecycle.Defs.{ActiveEvidencePolicy, view, is_active}
use viy.Lifecycle.View.{active_facts, contains-view}
use viy.Lifecycle.Activity.{Active, is_active_iff}

-- The fact is an element.
unfoldable pub Among : AnalysisFact → List AnalysisFact → Type 0
Among f [] = ⊥
Among f (g ∷ gs) = (g ≡ f) ⊎ Among f gs

-- An active fact among these with these canonical bytes.
abbrev pub SomeActive : ActiveEvidencePolicy → List AnalysisFact → List ℕ → List ℕ → Type 0
SomeActive policy facts payload_key key =
    (fact : AnalysisFact) × Among fact facts
    × Active policy fact.evidence
    × (is_fact payload_key key fact ≡ true)

later_active :
    (policy : ActiveEvidencePolicy) (pk ek : List ℕ) (f : AnalysisFact) (facts : List AnalysisFact)
    → SomeActive policy facts pk ek
    → SomeActive policy (f ∷ facts) pk ek
unfolding Among
later_active policy pk ek f facts (g, among, active, is) = (g, inr among, active, is)

active_step :
    (policy : ActiveEvidencePolicy) (pk ek : List ℕ) (f : AnalysisFact) (facts : List AnalysisFact)
    → any_fact pk ek (active_facts policy (f ∷ facts))
      ≡ (is_active policy f && is_fact pk ek f || any_fact pk ek (active_facts policy facts))
unfolding any_fact active_facts
active_step policy pk ek f facts = elim (Bool-cases (is_active policy f)) [
  | inl on ↦ rw on refl
  | inr off ↦ rw off refl
]

some_active :
    (policy : ActiveEvidencePolicy) (pk ek : List ℕ) (facts : List AnalysisFact)
    → any_fact pk ek (active_facts policy facts) ≡ true
    → SomeActive policy facts pk ek
unfolding any_fact active_facts Among
some_active policy pk ek [] h = absurd cc
some_active policy pk ek (f ∷ facts) h =
    let k = sym (active_step policy pk ek f facts) ∙ h in
    elim (Bool-cases (is_active policy f && is_fact pk ek f)) [
      | inl found ↦ (f, inl refl, (is_active_iff policy f).0 (ground arith), ground arith)
      | inr other ↦
          later_active policy pk ek f facts (some_active policy pk ek facts (ground arith))
    ]

active_found :
    (policy : ActiveEvidencePolicy) (pk ek : List ℕ) (g : AnalysisFact) (facts : List AnalysisFact)
    → Among g facts
    → is_active policy g ≡ true
    → is_fact pk ek g ≡ true
    → any_fact pk ek (active_facts policy facts) ≡ true
unfolding Among
active_found policy pk ek g [] a on is = absurd a
active_found policy pk ek g (f ∷ facts) (inl e) on is =
    let on_f : is_active policy f ≡ true = ap (is_active policy) e ∙ on in
    let is_f : is_fact pk ek f ≡ true = ap (is_fact pk ek) e ∙ is in
    active_step policy pk ek f facts ∙ ground (arith, on_f, is_f)
active_found policy pk ek g (f ∷ facts) (inr a) on is =
    active_step policy pk ek f facts ∙ ground (arith, active_found policy pk ek g facts a on is)

-- The active view of a ledger is a ledger, and has an observation exactly if it is that of a fact of the
-- ledger that the user asserted, that is of the newest generation of a provider of the whole database
-- and of no function or of one that it still has, or that another producer found in the generation
-- that its function has.
pub view-Active :
    (limits : FactCodecLimits) (policy : ActiveEvidencePolicy) (history : EvidenceStore)
    → IsLedger limits history
    → IsLedger limits (view policy history)
      × ((payload_key key : List ℕ)
          → (contains payload_key key (view policy history) ≡ true)
            ↔ SomeActive policy (flattened_facts history) payload_key key)
view-Active limits policy history h =
    let (ledger, same) = contains-view limits policy history h in
    (
      ledger,
      λ pk ek. (
        (λ c. some_active policy pk ek (flattened_facts history) (sym (same pk ek) ∙ c)),
        λ (g, among, active, is).
            same pk ek
            ∙ active_found policy pk ek g (flattened_facts history) among
                ((is_active_iff policy g).1 active) is,
      ),
    )
