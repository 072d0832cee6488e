-- ===== src/Store/Determined.antt =====
-- A ledger is determined by what it has (src/evidence_store.cpp).
use viy.Base.{
  ℕ, ◌≡◌, refl, sym, ap, ◌∙◌, subst, Bool, true, false, none, some, List, [], ◌∷◌, map, All, arith,
  Bool-cases, inl, inr, if◌then◌else◌,
}
use viy.Base.Lex.{equal_bytes, less_bytes, equal_bytes→≡, equal_bytes_self}
use viy.Base.Keyed.{find, has, Sorted, find_below, keys_determined}
use viy.Facts.Bytes.{FactCodecLimits}
use viy.Facts.Schema.{Evidence, FactPayload}
use viy.Facts.Codec.{encode_evidence}
use viy.Facts.Valid.{
  validate_fact_evidence, encode_evidence_valid, payload_from_key, evidence_from_key,
}
use viy.Store.Defs.{Entry, EvidenceStore, entry_key, evidence_key, contains}
use viy.Store.Invariant.{ObservationValid, NonEmpty, EntryValid, IsLedger, entry_payload_valid}

-- The key of valid evidence is its canonical bytes.
evidence_key_valid :
    (limits : FactCodecLimits) (p : FactPayload) (e : Evidence)
    → ObservationValid limits p e
    → encode_evidence e ≡ some (evidence_key e)
unfolding ObservationValid evidence_key
evidence_key_valid limits p e h =
    let (bytes, written) =
      encode_evidence_valid e (validate_fact_evidence (record { payload = p; evidence = e }) h.0) in
    rw (evidence_key, written) refl

same_evidence :
    (limits : FactCodecLimits) (p q : FactPayload) (e f : Evidence)
    → ObservationValid limits p e
    → ObservationValid limits q f
    → evidence_key e ≡ evidence_key f
    → e ≡ f
unfolding ObservationValid
same_evidence limits p q e f h k same =
    evidence_from_key limits e f (evidence_key e)
      (validate_fact_evidence (record { payload = p; evidence = e }) h.0)
      (validate_fact_evidence (record { payload = q; evidence = f }) k.0)
      (evidence_key_valid limits p e h) (evidence_key_valid limits q f k ∙ ap some (sym same)) h.1
      k.1 h.2

head_same : (a b : List ℕ) (l r : List (List ℕ)) → (a ∷ l) ≡ (b ∷ r) → a ≡ b
head_same a b l r h = cc

tail_same : (a b : List ℕ) (l r : List (List ℕ)) → (a ∷ l) ≡ (b ∷ r) → l ≡ r
tail_same a b l r h = cc

same_observations :
    (limits : FactCodecLimits) (p q : FactPayload) (xs ys : List Evidence)
    → All (ObservationValid limits p) xs
    → All (ObservationValid limits q) ys
    → map evidence_key xs ≡ map evidence_key ys
    → xs ≡ ys
same_observations limits p q [] [] a b h = refl
same_observations limits p q [] (y ∷ ys) a b h = cc
same_observations limits p q (x ∷ xs) [] a b h = cc
same_observations limits p q (x ∷ xs) (y ∷ ys) (h, a) (k, b) e =
    let first = same_evidence limits p q x y h k (head_same _ _ _ _ e) in
    let rest = same_observations limits p q xs ys a b (tail_same _ _ _ _ e) in λ i. first i ∷ rest i

pub contains_first :
    (x : Entry) (store : EvidenceStore) (ek : List ℕ)
    → contains x.key ek (x ∷ store) ≡ has evidence_key ek x.value.observations
unfolding contains
contains_first x store ek = rw (equal_bytes_self x.key, contains) refl

pub contains_later :
    (x : Entry) (store : EvidenceStore) (pk ek : List ℕ)
    → equal_bytes x.key pk ≡ false
    → contains pk ek (x ∷ store) ≡ contains pk ek store
unfolding contains
contains_later x store pk ek h = rw (h, contains) refl

pub contains_below :
    (store : EvidenceStore) (pk ek : List ℕ)
    → All (λ y. less_bytes pk (entry_key y) ≡ true) store
    → contains pk ek store ≡ false
unfolding contains
contains_below store pk ek a = rw (find_below entry_key pk store a, contains) refl

same_rest :
    (x y : Entry) (s t : EvidenceStore)
    → x.key ≡ y.key
    → Sorted entry_key (x ∷ s)
    → Sorted entry_key (y ∷ t)
    → ((pk ek : List ℕ) → contains pk ek (x ∷ s) ≡ contains pk ek (y ∷ t))
    → (pk ek : List ℕ) → contains pk ek s ≡ contains pk ek t
same_rest x y s t e (a, _) (b, _) same pk ek = elim (Bool-cases (equal_bytes x.key pk)) [
  | inl here ↦
      let at_x = equal_bytes→≡ x.key pk here in
      subst (λ j. contains j ek s ≡ false) at_x (contains_below s x.key ek a)
      ∙ sym (subst (λ j. contains j ek t ≡ false) (sym e ∙ at_x) (contains_below t y.key ek b))
  | inr later ↦
      sym (contains_later x s pk ek later)
      ∙ same pk ek
      ∙ contains_later y t pk ek (subst (λ j. equal_bytes j pk ≡ false) e later)
]

same_entry :
    (limits : FactCodecLimits) (x y : Entry)
    → EntryValid limits x
    → EntryValid limits y
    → x.key ≡ y.key
    → ((ek : List ℕ)
        → has evidence_key ek x.value.observations ≡ has evidence_key ek y.value.observations)
    → x ≡ y
unfolding EntryValid
same_entry limits x y (ep, pf, kl, ox, sx, nx) (fp, qf, ml, oy, sy, ny) k same =
    let p =
      payload_from_key limits x.value.payload y.value.payload x.key
        (entry_payload_valid limits x.value.payload x.value.observations ox nx)
        (entry_payload_valid limits y.value.payload y.value.observations oy ny) ep
        (fp ∙ ap some (sym k)) pf qf kl in
    let keys = keys_determined evidence_key x.value.observations y.value.observations sx sy same in
    let o =
      same_observations limits x.value.payload y.value.payload x.value.observations
        y.value.observations ox oy keys in
    λ i. record { key = k i; value = record { payload = p i; observations = o i } }

aligned :
    (limits : FactCodecLimits) (s t : EvidenceStore)
    → IsLedger limits s
    → IsLedger limits t
    → map entry_key s ≡ map entry_key t
    → ((pk ek : List ℕ) → contains pk ek s ≡ contains pk ek t)
    → s ≡ t
unfolding IsLedger
aligned limits [] [] hs ht keys same = refl
aligned limits [] (y ∷ t) hs ht keys same = cc
aligned limits (x ∷ s) [] hs ht keys same = cc
aligned limits (x ∷ s) (y ∷ t) ((a, ss), (vx, vs)) ((b, st), (vy, vt)) keys same =
    let k : x.key ≡ y.key = head_same _ _ _ _ keys in
    let at_head = λ (ek : List ℕ).
      sym (contains_first x s ek)
      ∙ same x.key ek
      ∙ ap (λ j. contains j ek (y ∷ t)) k
      ∙ contains_first y t ek in
    let e = same_entry limits x y vx vy k at_head in
    let rest =
      aligned limits s t (ss, vs) (st, vt) (tail_same _ _ _ _ keys)
        (same_rest x y s t k (a, ss) (b, st) same) in
    λ i. e i ∷ rest i

first_observation :
    (observations : List Evidence)
    → NonEmpty observations
    → (ek : List ℕ) × (has evidence_key ek observations ≡ true)
unfolding NonEmpty
first_observation [] h = absurd h
first_observation (o ∷ observations) h =
    (evidence_key o, rw (equal_bytes_self (evidence_key o)) refl)

some_contained :
    (limits : FactCodecLimits) (pk : List ℕ) (s : EvidenceStore)
    → All (EntryValid limits) s
    → has entry_key pk s ≡ true
    → (ek : List ℕ) × (contains pk ek s ≡ true)
unfolding EntryValid contains
some_contained limits pk [] v h = cc
some_contained limits pk (x ∷ s) (vx, vs) h = elim (Bool-cases (equal_bytes x.key pk)) [
  | inl here ↦
      let (ek, found) = first_observation x.value.observations (vx.5) in
      (ek, rw (here, contains) found)
  | inr later ↦
      let (ek, found) = some_contained limits pk s vs (ground (arith, h, later)) in
      (ek, contains_later x s pk ek later ∙ found)
]

contained_has :
    (pk ek : List ℕ) (s : EvidenceStore) → contains pk ek s ≡ true → has entry_key pk s ≡ true
unfolding contains
contained_has pk ek [] h = cc
contained_has pk ek (x ∷ s) h = elim (Bool-cases (equal_bytes x.key pk)) [
  | inl here ↦ rw here refl
  | inr later ↦ rw later (
      contained_has pk ek s (
        subst
          (λ b.
            elim (if b then some x else find entry_key pk s) [
              | none ↦ false
              | some entry ↦ has evidence_key ek entry.value.observations
            ]
            ≡ true)
          later h))
]

equal_tests : (a b : Bool) → (a ≡ true → b ≡ true) → (b ≡ true → a ≡ true) → a ≡ b
equal_tests true b f g = sym (f refl)
equal_tests false true f g = g refl
equal_tests false false f g = refl

same_keys :
    (limits : FactCodecLimits) (s t : EvidenceStore)
    → All (EntryValid limits) s
    → All (EntryValid limits) t
    → ((pk ek : List ℕ) → contains pk ek s ≡ contains pk ek t)
    → (pk : List ℕ) → has entry_key pk s ≡ has entry_key pk t
same_keys limits s t vs vt same pk =
    equal_tests (has entry_key pk s) (has entry_key pk t)
      (λ h.
        let (ek, found) = some_contained limits pk s vs h in
        contained_has pk ek t (sym (same pk ek) ∙ found))
      (λ h.
        let (ek, found) = some_contained limits pk t vt h in
        contained_has pk ek s (same pk ek ∙ found))

-- Two ledgers that satisfy the invariant and have the same observations of the same payloads are
-- equal: the representation holds no trace of the order in which the facts were added.
pub ledger_determined :
    (limits : FactCodecLimits) (s t : EvidenceStore)
    → IsLedger limits s
    → IsLedger limits t
    → ((pk ek : List ℕ) → contains pk ek s ≡ contains pk ek t)
    → s ≡ t
unfolding IsLedger
ledger_determined limits s t hs ht same =
    let keys = keys_determined entry_key s t hs.0 ht.0 (same_keys limits s t hs.1 ht.1 same) in
    aligned limits s t hs ht keys same
