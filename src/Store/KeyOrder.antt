-- ===== src/Store/KeyOrder.antt =====
-- The order of the keys under any insertion (EvidenceStore::add of src/evidence_store.cpp).
use viy.Base.{ℕ, ◌≡◌, refl, Option, none, some, List, option_rule}
use viy.Base.Keyed.{find, place, Sorted, place-Sorted}
use viy.Facts.Schema.{AnalysisFact}
use viy.Store.Defs.{
  EvidenceStore, Entry, AddDisposition, entry_key, evidence_key, with_fact, add_at, keyed_fact, add,
}

with_fact_key : (key : List ℕ) (n : AnalysisFact) (m : Option Entry) → (with_fact key n m).key ≡ key
unfolding with_fact
with_fact_key key n none = refl
with_fact_key key n (some entry) = refl

-- Whatever the fact, adding keeps the strict order of the keys.
pub add-Sorted :
    (fact : AnalysisFact) (store : EvidenceStore)
    → Sorted entry_key store
    → Sorted entry_key (add fact store).1
unfolding add add_at
add-Sorted fact store s =
    option_rule (λ (r : AddDisposition × EvidenceStore). Sorted entry_key r.1) (keyed_fact fact) _ _
      (λ rejected. s)
      (λ keyed e.
        option_rule (λ (r : AddDisposition × EvidenceStore). Sorted entry_key r.1)
          (find entry_key keyed.0 store) _ _ (λ absent. placed keyed.0 keyed.1)
          (λ entry there.
            option_rule (λ (r : AddDisposition × EvidenceStore). Sorted entry_key r.1)
              (find evidence_key (evidence_key keyed.1.evidence) entry.value.observations) _ _
              (λ new. placed keyed.0 keyed.1) (λ o again. s)))
  where
    placed :
        (key : List ℕ) (n : AnalysisFact)
        → Sorted entry_key (place entry_key key (with_fact key n) store)
    placed key n = place-Sorted entry_key key (with_fact key n) store (with_fact_key key n) s
