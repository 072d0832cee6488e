-- ===== src/Policy/Safety.antt =====
-- No record of a contradiction leads to a change (src/evidence_apply_policy.cpp with
-- contradicted_payload_digests of src/evidence_store.cpp).
use viy.Base.{
  ℕ, ◌≡◌, refl, sym, ap, ◌∙◌, subst, Bool, true, false, ◌&&◌, ◌||◌, some, List, [], ◌∷◌, map, All,
  ◌⊎◌, inl, inr, Bool-cases, arith,
}
use viy.Base.Any.{any, any_pair}
use viy.Base.Lex.{equal_bytes, equal_bytes_self, equal_bytes→≡}
use viy.Facts.Schema.{FactPayload}
use viy.Facts.Bytes.{FactCodecLimits}
use viy.Facts.Codec.{encode_payload}
use viy.Facts.Sha256.{sha256_bytes}
use viy.Store.Defs.{Entry, EvidenceStore}
use viy.Store.Invariant.{EntryValid, IsLedger}
use viy.Conflicts.Dispatch.{is_contradiction}
use viy.Conflicts.Compare.{compare_payloads}
use viy.Conflicts.Index.{FactDigest, digest, contradicted_payload_digests}
use viy.Conflicts.Marks.{hit}
use viy.Conflicts.Found.{contradicted_payload_digests-compare_payloads}
use viy.Policy.Defs.{
  EvidenceApplyPolicy, EvidenceApplyDecision, no_action, classify_record, records, stable_digest,
  is_contradicted, plan_evidence_application,
}
use viy.Policy.Plan.{decide_in, plan_evidence_application-decisions}

-- The comparison of the two entries' payloads reports a contradiction.
abbrev pub contradictory : Entry → Entry → Bool
contradictory x y = any is_contradiction (compare_payloads x.value.payload y.value.payload)

-- Some contradiction of the ledger has the payload with the canonical bytes on one of its sides.
abbrev pub contested : EvidenceStore → List ℕ → Bool
contested store key =
    any_pair (λ x y. contradictory x y && (equal_bytes x.key key || equal_bytes y.key key)) store

-- The relation holds of the elements at the same places, and the lists are of the same length.
unfoldable pub Pairwise {ℓ κ} :
    {A : Type ℓ} {B : Type κ} → (A → B → Type 0) → List A → List B → Type 0
Pairwise R [] [] = Unit
Pairwise R [] (y ∷ ys) = ⊥
Pairwise R (x ∷ xs) [] = ⊥
Pairwise R (x ∷ xs) (y ∷ ys) = R x y × Pairwise R xs ys

digest_found :
    (digests : List FactDigest) (p : FactPayload) (bytes : List ℕ)
    → encode_payload p ≡ some bytes
    → is_contradicted digests p ≡ any (equal_bytes (sha256_bytes bytes)) digests
unfolding is_contradicted stable_digest
digest_found digests p bytes h = rw (h, is_contradicted, stable_digest) refl

any_mono :
    (p q : Entry → Bool) (xs : List Entry)
    → ((x : Entry) → p x ≡ true → q x ≡ true)
    → any q xs ≡ false
    → any p xs ≡ false
unfolding any
any_mono p q [] h e = refl
any_mono p q (x ∷ xs) h e = ground (arith, h x, any_mono p q xs h (ground arith))

any_pair_mono :
    (r s : Entry → Entry → Bool) (xs : List Entry)
    → ((x y : Entry) → r x y ≡ true → s x y ≡ true)
    → any_pair s xs ≡ false
    → any_pair r xs ≡ false
unfolding any_pair
any_pair_mono r s [] h e = refl
any_pair_mono r s (x ∷ xs) h e =
    ground
      (arith, any_mono (r x) (s x) xs (h x) (ground arith), any_pair_mono r s xs h (ground arith))

same_digest : (x y : Entry) → equal_bytes x.key y.key ≡ true → hit (digest y) x ≡ true
unfolding digest
same_digest x y h =
    ap (λ key. equal_bytes (sha256_bytes y.key) (sha256_bytes key)) (equal_bytes→≡ x.key y.key h)
    ∙ equal_bytes_self (sha256_bytes y.key)

uncontested :
    (limits : FactCodecLimits) (store : EvidenceStore) (e : Entry)
    → IsLedger limits store
    → EntryValid limits e
    → is_contradicted (contradicted_payload_digests store) e.value.payload ≡ false
    → contested store e.key ≡ false
unfolding EntryValid digest
uncontested limits store e l v clear =
    any_pair_mono _ _ store
      (λ x y h.
        hits (contradictory x y) (equal_bytes x.key e.key) (equal_bytes y.key e.key)
          (hit (digest e) x) (hit (digest e) y) (same_digest x e) (same_digest y e) h)
      (sym (contradicted_payload_digests-compare_payloads limits store (digest e) l)
        ∙ sym (digest_found (contradicted_payload_digests store) e.value.payload e.key v.0)
        ∙ clear)
  where
    hits :
        (c k m g h : Bool)
        → (k ≡ true → g ≡ true)
        → (m ≡ true → h ≡ true)
        → (c && (k || m)) ≡ true
        → (c && (g || h)) ≡ true
    hits c k m g h f u e = ground (arith, f, u)

-- The decision on an entry.
abbrev Safe : EvidenceStore → Entry → EvidenceApplyDecision → Type 0
Safe store e decision = (decision.action ≡ no_action) ⊎ (contested store e.key ≡ false)

decide-Safe :
    (limits : FactCodecLimits) (store : EvidenceStore) (policy : EvidenceApplyPolicy) (e : Entry)
    → IsLedger limits store
    → EntryValid limits e
    → Safe store e (decide_in store policy e.value)
unfolding classify_record
decide-Safe limits store policy e l v =
    elim (Bool-cases (is_contradicted (contradicted_payload_digests store) e.value.payload)) [
      | inl suppressed ↦ inl (rw suppressed refl)
      | inr clear ↦ inr (uncontested limits store e l v clear)
    ]

each-Safe :
    (limits : FactCodecLimits) (store entries : EvidenceStore) (policy : EvidenceApplyPolicy)
    → IsLedger limits store
    → All (EntryValid limits) entries
    → Pairwise (Safe store) entries (map (decide_in store policy) (records entries))
unfolding Pairwise
each-Safe limits store [] policy l vs = tt
each-Safe limits store (e ∷ entries) policy l (v, vs) =
    (decide-Safe limits store policy e l v, each-Safe limits store entries policy l vs)

-- In the plan for a ledger that satisfies the invariant each entry has its decision, at its place, and
-- that decision changes the database only if no comparison of two payloads of the ledger reports a
-- contradiction in which the entry's payload takes part.
pub plan_evidence_application-contested :
    (limits : FactCodecLimits) (store : EvidenceStore) (policy : EvidenceApplyPolicy)
    → IsLedger limits store
    → Pairwise
        (λ e decision. (decision.action ≡ no_action) ⊎ (contested store e.key ≡ false))
        store
        (plan_evidence_application store policy).decisions
unfolding IsLedger
plan_evidence_application-contested limits store policy l =
    subst (Pairwise (Safe store) store) (sym ((plan_evidence_application-decisions store policy).0))
      (each-Safe limits store store policy l l.1)
