-- ===== src/Store/Merge.antt =====
-- The merge of two ledgers (src/evidence_store.cpp).
use viy.Base.{
  ℕ, ◌≤◌, ◌≡◌, refl, sym, ap, ◌∙◌, subst, Bool, false, ◌&&◌, ◌||◌, Option, some, List, [], ◌∷◌,
  ◌++◌, All, arith, length, Bool-cases, inl, inr,
}
use viy.Base.Lex.{equal_bytes, equal_bytes→≡}
use viy.Base.Keyed.{has, Sorted}
use viy.Facts.Bytes.{FactCodecLimits}
use viy.Facts.BytesRead.{IfSome}
use viy.Facts.Fits.{PayloadFits}
use viy.Facts.Valid.{normalize_fact_valid}
use viy.Facts.Schema.{Evidence, FactPayload, AnalysisFact}
use viy.Facts.Codec.{encode_payload}
use viy.Store.Defs.{
  EvidenceStore, entry_key, evidence_key, keyed_fact, facts_of, flattened_facts, empty_report,
  merge, contains,
}
use viy.Store.Invariant.{ObservationValid, EntryValid, IsLedger, Storable}
use viy.Store.Contents.{is_fact}
use viy.Store.Determined.{ledger_determined, contains_first, contains_later, contains_below}
use viy.Store.Sequence.{any_fact, any_fact-append, add_all-IsLedger, contains-add_all}

-- A fact of the ledger is its own normal form, under the entry's key.
keyed_observation :
    (limits : FactCodecLimits) (p : FactPayload) (key : List ℕ) (e : Evidence)
    → encode_payload p ≡ some key
    → ObservationValid limits p e
    → ◌≡◌ {A = Option (List ℕ × AnalysisFact)}
        (keyed_fact (record { payload = p; evidence = e }))
        (some (key, record { payload = p; evidence = e }))
unfolding keyed_fact ObservationValid
keyed_observation limits p key e k o =
    rw (normalize_fact_valid (record { payload = p; evidence = e }) o.0, k) refl

pub observation-Storable :
    (limits : FactCodecLimits) (p : FactPayload) (key : List ℕ) (e : Evidence)
    → encode_payload p ≡ some key
    → PayloadFits limits p
    → length key ≤ limits.max_fact_bytes
    → ObservationValid limits p e
    → Storable limits (record { payload = p; evidence = e })
unfolding Storable ObservationValid IfSome
observation-Storable limits p key e k fits le o =
    rw (keyed_observation limits p key e k o) (fits, le, o.1, o.2)

facts_of-Storable :
    (limits : FactCodecLimits) (p : FactPayload) (key : List ℕ) (observations : List Evidence)
    → encode_payload p ≡ some key
    → PayloadFits limits p
    → length key ≤ limits.max_fact_bytes
    → All (ObservationValid limits p) observations
    → All (Storable limits) (facts_of p observations)
unfolding facts_of
facts_of-Storable limits p key [] k fits le o = tt
facts_of-Storable limits p key (e ∷ observations) k fits le (o, os) = (
  observation-Storable limits p key e k fits le o,
  facts_of-Storable limits p key observations k fits le os,
)

All-append {ℓ κ} :
    {A : Type ℓ} (P : A → Type κ) (xs ys : List A) → All P xs → All P ys → All P (xs ++ ys)
All-append P [] ys a b = b
All-append P (x ∷ xs) ys (h, a) b = (h, All-append P xs ys a b)

flattened_entries-Storable :
    (limits : FactCodecLimits) (store : EvidenceStore)
    → All (EntryValid limits) store
    → All (Storable limits) (flattened_facts store)
unfolding flattened_facts EntryValid
flattened_entries-Storable limits [] h = tt
flattened_entries-Storable limits (x ∷ store) ((k, fits, le, o, s, n), vs) =
    All-append (Storable limits) (facts_of x.value.payload x.value.observations)
      (flattened_facts store)
      (facts_of-Storable limits x.value.payload x.key x.value.observations k fits le o)
      (flattened_entries-Storable limits store vs)

pub flattened_facts-Storable :
    (limits : FactCodecLimits) (store : EvidenceStore)
    → IsLedger limits store
    → All (Storable limits) (flattened_facts store)
unfolding IsLedger
flattened_facts-Storable limits store h = flattened_entries-Storable limits store (h.1)

either_of : (a b c : Bool) → (a && b || a && c) ≡ (a && (b || c))
either_of a b c = ground arith

nothing_left : (a : Bool) → (a && false) ≡ false
nothing_left a = ground arith

is_fact-observation :
    (limits : FactCodecLimits) (pk ek : List ℕ) (p : FactPayload) (key : List ℕ) (e : Evidence)
    → encode_payload p ≡ some key
    → ObservationValid limits p e
    → is_fact pk ek (record { payload = p; evidence = e })
      ≡ (equal_bytes key pk && equal_bytes (evidence_key e) ek)
unfolding is_fact
is_fact-observation limits pk ek p key e k o =
    rw (keyed_observation limits p key e k o, is_fact) refl

any_fact-facts_of :
    (limits : FactCodecLimits) (pk ek : List ℕ) (p : FactPayload) (key : List ℕ)
    (observations : List Evidence)
    → encode_payload p ≡ some key
    → All (ObservationValid limits p) observations
    → any_fact pk ek (facts_of p observations)
      ≡ (equal_bytes key pk && has evidence_key ek observations)
unfolding any_fact facts_of
any_fact-facts_of limits pk ek p key [] k o = sym (nothing_left (equal_bytes key pk))
any_fact-facts_of limits pk ek p key (e ∷ observations) k (o, os) =
    ap (λ b. b || any_fact pk ek (facts_of p observations))
      (is_fact-observation limits pk ek p key e k o)
    ∙ ap (λ b. equal_bytes key pk && equal_bytes (evidence_key e) ek || b)
        (any_fact-facts_of limits pk ek p key observations k os)
    ∙ (either_of (equal_bytes key pk) (equal_bytes (evidence_key e) ek)
        (has evidence_key ek observations))

any_fact-flattened_entries :
    (limits : FactCodecLimits) (pk ek : List ℕ) (store : EvidenceStore)
    → Sorted entry_key store
    → All (EntryValid limits) store
    → any_fact pk ek (flattened_facts store) ≡ contains pk ek store
unfolding any_fact flattened_facts EntryValid contains
any_fact-flattened_entries limits pk ek [] s v = refl
any_fact-flattened_entries limits pk ek (x ∷ store) (a, s) ((k, fits, le, o, so, n), vs) =
    let head = any_fact-facts_of limits pk ek x.value.payload x.key x.value.observations k o in
    let rest = any_fact-flattened_entries limits pk ek store s vs in
    let both =
      any_fact-append pk ek (facts_of x.value.payload x.value.observations)
        (flattened_facts store) in
    elim (Bool-cases (equal_bytes x.key pk)) [
      | inl here ↦
          let below =
            subst (λ j. contains j ek store ≡ false) (equal_bytes→≡ x.key pk here)
              (contains_below store x.key ek a) in
          let there =
            subst (λ j. contains j ek (x ∷ store) ≡ has evidence_key ek x.value.observations)
              (equal_bytes→≡ x.key pk here) (contains_first x store ek) in
          rw (both, head, rest, there, below, here) (ground arith)
      | inr later ↦ rw (both, head, rest, contains_later x store pk ek later, later) refl
    ]

-- The facts that a ledger gives are exactly the observations it has.
pub any_fact-flattened_facts :
    (limits : FactCodecLimits) (pk ek : List ℕ) (store : EvidenceStore)
    → IsLedger limits store
    → any_fact pk ek (flattened_facts store) ≡ contains pk ek store
unfolding IsLedger
any_fact-flattened_facts limits pk ek store (s, v) =
    any_fact-flattened_entries limits pk ek store s v

-- The merge of two ledgers is a ledger.
pub merge-IsLedger :
    (limits : FactCodecLimits) (store other : EvidenceStore)
    → IsLedger limits store
    → IsLedger limits other
    → IsLedger limits (merge store other).1
unfolding merge
merge-IsLedger limits store other hs ho =
    add_all-IsLedger limits (flattened_facts other) empty_report store
      (flattened_facts-Storable limits other ho) hs

-- It has exactly the observations of the two.
pub contains-merge :
    (limits : FactCodecLimits) (payload_key key : List ℕ) (store other : EvidenceStore)
    → IsLedger limits store
    → IsLedger limits other
    → contains payload_key key (merge store other).1
      ≡ (contains payload_key key store || contains payload_key key other)
unfolding merge
contains-merge limits pk ek store other hs ho =
    contains-add_all limits pk ek (flattened_facts other) empty_report store
      (flattened_facts-Storable limits other ho) hs
    ∙ ap (λ b. b || contains pk ek store) (any_fact-flattened_facts limits pk ek other ho)
    ∙ swap (contains pk ek other) (contains pk ek store)
  where
    swap : (a b : Bool) → (a || b) ≡ (b || a)
    swap a b = ground arith

-- Merging two ledgers that satisfy the invariant gives the same ledger in either direction.
pub merge_comm :
    (limits : FactCodecLimits) (store other : EvidenceStore)
    → IsLedger limits store
    → IsLedger limits other
    → (merge store other).1 ≡ (merge other store).1
merge_comm limits store other hs ho =
    ledger_determined limits (merge store other).1 (merge other store).1
      (merge-IsLedger limits store other hs ho) (merge-IsLedger limits other store ho hs)
      (λ pk ek.
        contains-merge limits pk ek store other hs ho
        ∙ swap (contains pk ek store) (contains pk ek other)
        ∙ sym (contains-merge limits pk ek other store ho hs))
  where
    swap : (a b : Bool) → (a || b) ≡ (b || a)
    swap a b = ground arith

-- A merge with the same ledger changes nothing.
pub merge_self :
    (limits : FactCodecLimits) (store : EvidenceStore)
    → IsLedger limits store
    → (merge store store).1 ≡ store
merge_self limits store h =
    ledger_determined limits (merge store store).1 store (merge-IsLedger limits store store h h) h
      (λ pk ek. contains-merge limits pk ek store store h h ∙ twice (contains pk ek store))
  where
    twice : (a : Bool) → (a || a) ≡ a
    twice a = ground arith

-- Merging three ledgers that satisfy the invariant gives the same ledger in either grouping.
pub merge_assoc :
    (limits : FactCodecLimits) (r s t : EvidenceStore)
    → IsLedger limits r
    → IsLedger limits s
    → IsLedger limits t
    → (merge (merge r s).1 t).1 ≡ (merge r (merge s t).1).1
merge_assoc limits r s t hr hs ht =
    let rs = merge-IsLedger limits r s hr hs in
    let st = merge-IsLedger limits s t hs ht in
    ledger_determined limits (merge (merge r s).1 t).1 (merge r (merge s t).1).1
      (merge-IsLedger limits (merge r s).1 t rs ht) (merge-IsLedger limits r (merge s t).1 hr st)
      (λ pk ek.
        contains-merge limits pk ek (merge r s).1 t rs ht
        ∙ ap (λ b. b || contains pk ek t) (contains-merge limits pk ek r s hr hs)
        ∙ regroup (contains pk ek r) (contains pk ek s) (contains pk ek t)
        ∙ ap (λ b. contains pk ek r || b) (sym (contains-merge limits pk ek s t hs ht))
        ∙ sym (contains-merge limits pk ek r (merge s t).1 hr st))
  where
    regroup : (a b c : Bool) → ((a || b) || c) ≡ (a || (b || c))
    regroup a b c = ground arith
