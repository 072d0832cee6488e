-- ===== src/Store/Sequence.antt =====
-- Facts added one after the other (src/evidence_store.cpp).
use viy.Base.{ℕ, ◌≡◌, refl, ap, ◌∙◌, Bool, false, ◌||◌, List, [], ◌∷◌, ◌++◌, All, arith}
use viy.Base.Keyed.{Sorted}
use viy.Facts.Bytes.{FactCodecLimits}
use viy.Facts.Schema.{AnalysisFact}
use viy.Store.Defs.{
  EvidenceStore, MergeReport, count_disposition, add, add_all, contains, entry_key,
}
use viy.Store.Invariant.{IsLedger, Storable, add-IsLedger}
use viy.Store.Contents.{is_fact, contains-add}

-- Has one of these facts these canonical bytes?
unfoldable pub any_fact : List ℕ → List ℕ → List AnalysisFact → Bool
any_fact payload_key key [] = false
any_fact payload_key key (fact ∷ facts) =
    is_fact payload_key key fact || any_fact payload_key key facts

pub any_fact-append :
    (pk ek : List ℕ) (fs gs : List AnalysisFact)
    → any_fact pk ek (fs ++ gs) ≡ (any_fact pk ek fs || any_fact pk ek gs)
unfolding any_fact
any_fact-append pk ek [] gs = refl
any_fact-append pk ek (f ∷ fs) gs = ground (arith, any_fact-append pk ek fs gs)

pub ledger-Sorted :
    (limits : FactCodecLimits) (store : EvidenceStore)
    → IsLedger limits store
    → Sorted entry_key store
unfolding IsLedger
ledger-Sorted limits store h = h.0

-- Adding facts that fit the limits, whatever is valid of them, keeps the ledger's invariant.
pub add_all-IsLedger :
    (limits : FactCodecLimits) (facts : List AnalysisFact) (report : MergeReport)
    (store : EvidenceStore)
    → All (Storable limits) facts
    → IsLedger limits store
    → IsLedger limits (add_all facts (report, store)).1
unfolding add_all
add_all-IsLedger limits [] report store a inv = inv
add_all-IsLedger limits (f ∷ facts) report store (s, a) inv =
    add_all-IsLedger limits facts (count_disposition (add f store).0 report) (add f store).1 a
      (add-IsLedger limits f store s inv)

either_order : (a b c : Bool) → (b || (a || c)) ≡ ((a || b) || c)
either_order a b c = ground arith

-- After facts that fit the limits are added, the ledger has exactly what it had and the valid facts
-- among the added: the list of entries implements a set of observations.
pub contains-add_all :
    (limits : FactCodecLimits) (pk ek : List ℕ) (facts : List AnalysisFact) (report : MergeReport)
    (store : EvidenceStore)
    → All (Storable limits) facts
    → IsLedger limits store
    → contains pk ek (add_all facts (report, store)).1
      ≡ (any_fact pk ek facts || contains pk ek store)
unfolding add_all any_fact
contains-add_all limits pk ek [] report store a inv = refl
contains-add_all limits pk ek (f ∷ facts) report store (s, a) inv =
    contains-add_all limits pk ek facts (count_disposition (add f store).0 report) (add f store).1 a
      (add-IsLedger limits f store s inv)
    ∙ ap (λ b. any_fact pk ek facts || b)
        (contains-add pk ek f store (ledger-Sorted limits store inv))
    ∙ either_order (is_fact pk ek f) (any_fact pk ek facts) (contains pk ek store)
