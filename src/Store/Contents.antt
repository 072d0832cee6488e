-- ===== src/Store/Contents.antt =====
-- What the ledger has after an insertion, in any order of insertions (src/evidence_store.cpp).
use viy.Base.{
  ℕ, ◌≡◌, refl, ap, ◌∙◌, subst, Bool, true, false, ◌&&◌, ◌||◌, Option, none, some, List, [], ◌∷◌,
  arith, option_rule, Option-cases, Bool-cases, inl, inr,
}
use viy.Base.Lex.{equal_bytes, equal_bytes→≡}
use viy.Base.Keyed.{find, has, place, Sorted, find-place_same, find-place_other, has-place}
use viy.Facts.Schema.{Evidence, AnalysisFact}
use viy.Store.Defs.{
  Entry, EvidenceStore, AddDisposition, entry_key, evidence_key, add_evidence, with_fact, add_at,
  keyed_fact, add, contains,
}

-- Has this fact these canonical bytes?
unfoldable pub is_fact : List ℕ → List ℕ → AnalysisFact → Bool
is_fact payload_key key fact = elim (keyed_fact fact) [
  | none ↦ false
  | some (k, n) ↦ equal_bytes k payload_key && equal_bytes (evidence_key n.evidence) key
]

with_fact_key : (key : List ℕ) (n : AnalysisFact) (m : Option Entry) → (with_fact key n m).key ≡ key
unfolding with_fact
with_fact_key key n none = refl
with_fact_key key n (some entry) = refl

-- The observations of the entry found, or none.
unfoldable observed_in : List ℕ → Option Entry → Bool
observed_in key none = false
observed_in key (some entry) = has evidence_key key entry.value.observations

contains-observed_in :
    (pk ek : List ℕ) (store : EvidenceStore)
    → contains pk ek store ≡ observed_in ek (find entry_key pk store)
unfolding contains observed_in
contains-observed_in pk ek store = by_entry (find entry_key pk store)
  where
    by_entry :
        (o : Option Entry)
        → elim o [ none ↦ false | some entry ↦ has evidence_key ek entry.value.observations ]
          ≡ observed_in ek o
    by_entry none = refl
    by_entry (some entry) = refl

observed_in-with_fact :
    (key ek : List ℕ) (n : AnalysisFact) (m : Option Entry)
    → observed_in ek (some (with_fact key n m))
      ≡ (equal_bytes (evidence_key n.evidence) ek || observed_in ek m)
unfolding observed_in with_fact add_evidence
observed_in-with_fact key ek n none = refl
observed_in-with_fact key ek n (some entry) =
    has-place evidence_key ek (evidence_key n.evidence) (λ _. n.evidence) entry.value.observations
      (λ _. refl)

contains_placed :
    (pk ek key : List ℕ) (n : AnalysisFact) (store : EvidenceStore)
    → Sorted entry_key store
    → contains pk ek (place entry_key key (with_fact key n) store)
      ≡ (equal_bytes key pk && equal_bytes (evidence_key n.evidence) ek || contains pk ek store)
contains_placed pk ek key n store sorted =
    let put = place entry_key key (with_fact key n) store in
    elim (Bool-cases (equal_bytes key pk)) [
      | inl here ↦
          let at_key = equal_bytes→≡ key pk here in
          let found =
            find-place_same entry_key key (with_fact key n) store (with_fact_key key n) sorted in
          rw (contains-observed_in pk ek put, contains-observed_in pk ek store, here)
            (subst
              (λ j. observed_in ek (find entry_key j put) ≡ (
                equal_bytes (evidence_key n.evidence) ek
                || observed_in ek (find entry_key j store)))
              at_key
              (ap (observed_in ek) found
                ∙ observed_in-with_fact key ek n (find entry_key key store)))
      | inr elsewhere ↦
          rw (contains-observed_in pk ek put, contains-observed_in pk ek store, elsewhere)
            (ap (observed_in ek) (
              find-place_other entry_key pk key (with_fact key n) store (with_fact_key key n)
                elsewhere))
    ]

pub found_has :
    (k : List ℕ) (xs : List Evidence) (x : Evidence)
    → find evidence_key k xs ≡ some x
    → has evidence_key k xs ≡ true
found_has k [] x h = cc
found_has k (y ∷ xs) x h = ground (arith, found_has k xs x)

already :
    (pk ek key : List ℕ) (n : AnalysisFact) (store : EvidenceStore) (entry : Entry) (o : Evidence)
    → find entry_key key store ≡ some entry
    → find evidence_key (evidence_key n.evidence) entry.value.observations ≡ some o
    → contains pk ek store
      ≡ (equal_bytes key pk && equal_bytes (evidence_key n.evidence) ek || contains pk ek store)
unfolding observed_in
already pk ek key n store entry o e f = elim (Bool-cases (equal_bytes key pk)) [
  | inr elsewhere ↦ rw elsewhere refl
  | inl here ↦ elim (Bool-cases (equal_bytes (evidence_key n.evidence) ek)) [
    | inr other ↦ rw (here, other) refl
    | inl same ↦
        let has_it = found_has (evidence_key n.evidence) entry.value.observations o f in
        let c =
          contains-observed_in key (evidence_key n.evidence) store
          ∙ ap (observed_in (evidence_key n.evidence)) e
          ∙ has_it in
        let at =
          subst (λ j. contains j ek store ≡ true) (equal_bytes→≡ key pk here)
            (subst (λ j. contains key j store ≡ true)
              (equal_bytes→≡ (evidence_key n.evidence) ek same) c) in
        rw (here, same, at) refl
  ]
]

contains-add_at :
    (pk ek key : List ℕ) (n : AnalysisFact) (store : EvidenceStore)
    → Sorted entry_key store
    → contains pk ek (add_at key n store).1
      ≡ (equal_bytes key pk && equal_bytes (evidence_key n.evidence) ek || contains pk ek store)
unfolding add_at
contains-add_at pk ek key n store sorted =
    let goal =
      equal_bytes key pk && equal_bytes (evidence_key n.evidence) ek || contains pk ek store in
    let placed = contains_placed pk ek key n store sorted in
    option_rule (λ (r : AddDisposition × EvidenceStore). contains pk ek r.1 ≡ goal)
      (find entry_key key store) _ _ (λ absent. placed)
      (λ entry e.
        option_rule (λ (r : AddDisposition × EvidenceStore). contains pk ek r.1 ≡ goal)
          (find evidence_key (evidence_key n.evidence) entry.value.observations) _ _ (λ new. placed)
          (λ o f. already pk ek key n store entry o e f))

-- After a fact is added, the ledger has exactly what it had and, if the fact is valid, the fact:
-- nothing is lost and nothing else appears.
pub contains-add :
    (payload_key key : List ℕ) (fact : AnalysisFact) (store : EvidenceStore)
    → Sorted entry_key store
    → contains payload_key key (add fact store).1
      ≡ (is_fact payload_key key fact || contains payload_key key store)
unfolding add is_fact
contains-add pk ek fact store sorted = elim (Option-cases (keyed_fact fact)) [
  | inl e ↦ rw (e, add, is_fact) refl
  | inr (keyed, e) ↦ rw (e, add, is_fact) (contains-add_at pk ek keyed.0 keyed.1 store sorted)
]
