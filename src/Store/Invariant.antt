-- ===== src/Store/Invariant.antt =====
-- The order of the ledger, and that insertion keeps it (src/evidence_store.cpp).
use viy.Base.{
  ℕ, ◌≡◌, refl, sym, ap, ◌∙◌, subst, true, Option, none, some, List, [], ◌∷◌, All, length, ◌≤◌,
  option_rule, if_rule,
}
use viy.Base.Lex.{equal_bytes, less_bytes}
use viy.Base.Keyed.{find, place, Sorted, place-Sorted, All-place}
use viy.Facts.Bytes.{FactCodecLimits}
use viy.Facts.BytesRead.{IfSome}
use viy.Facts.Fits.{PayloadFits, EvidenceFits}
use viy.Facts.Valid.{validate_fact_payload, normalize_fact_result, payload_from_key}
use viy.Facts.Schema.{Evidence, FactPayload, AnalysisFact}
use viy.Facts.Validate.{validate_payload}
use viy.Facts.Codec.{encode_payload, normalize_fact, validate_fact}
use viy.Facts.Canonical.{bind_some, some_injective}
use viy.Store.Defs.{
  Entry, EvidenceStore, AddDisposition, entry_key, evidence_key, add_evidence, with_fact, add_at,
  keyed_fact, add,
}

-- An observation of a payload that is valid, and that the canonical bytes can hold.
unfoldable pub ObservationValid : FactCodecLimits → FactPayload → Evidence → Type 0
ObservationValid limits payload e =
    (validate_fact (record { payload = payload; evidence = e }) ≡ true)
    × EvidenceFits limits e
    × (length (evidence_key e) ≤ limits.max_fact_bytes)

unfoldable pub NonEmpty {ℓ} : {A : Type ℓ} → List A → Type 0
NonEmpty [] = ⊥
NonEmpty (x ∷ xs) = Unit

-- The key is the payload's canonical bytes, the observations are valid, at least one, and in the
-- strict order of their own.
unfoldable pub EntryValid : FactCodecLimits → Entry → Type 0
unfolding ObservationValid NonEmpty
EntryValid limits entry =
    (encode_payload entry.value.payload ≡ some entry.key)
    × PayloadFits limits entry.value.payload
    × (length entry.key ≤ limits.max_fact_bytes)
    × All (ObservationValid limits entry.value.payload) entry.value.observations
    × Sorted evidence_key entry.value.observations
    × NonEmpty entry.value.observations

-- The ledger's invariant: the entries are valid and in the strict order of their keys.
unfoldable pub IsLedger : FactCodecLimits → EvidenceStore → Type 0
unfolding EntryValid
IsLedger limits store = Sorted entry_key store × All (EntryValid limits) store

-- What the canonical bytes of a fact can hold: its normal form, if it has one, fits the limits.
unfoldable pub Storable : FactCodecLimits → AnalysisFact → Type 0
unfolding IfSome
Storable limits fact =
    IfSome
      (λ keyed.
        PayloadFits limits keyed.1.payload
        × (length keyed.0 ≤ limits.max_fact_bytes)
        × EvidenceFits limits keyed.1.evidence
        × (length (evidence_key keyed.1.evidence) ≤ limits.max_fact_bytes))
      (keyed_fact fact)

pub keyed_fact_valid :
    (fact n : AnalysisFact) (key : List ℕ)
    → ◌≡◌ {A = Option (List ℕ × AnalysisFact)} (keyed_fact fact) (some (key, n))
    → (validate_fact n ≡ true) × (encode_payload n.payload ≡ some key)
unfolding keyed_fact
keyed_fact_valid fact n key h =
    let (m, e, h1) = bind_some (normalize_fact fact) _ (key, n) h in
    let (k, f, h2) = bind_some (encode_payload m.payload) _ (key, n) h1 in
    let same = some_injective h2 in
    let to_key = ap (λ p. p.0) same in
    let to_fact = ap (λ p. p.1) same in
    (
      ap validate_fact (sym to_fact) ∙ normalize_fact_result fact m e,
      ap (λ x. encode_payload x.payload) (sym to_fact) ∙ f ∙ ap some to_key,
    )

-- What a storable fact gives, when it is valid: its key, and an observation that fits.
unfoldable pub Accepted : FactCodecLimits → List ℕ → AnalysisFact → Type 0
unfolding ObservationValid
Accepted limits key n =
    (encode_payload n.payload ≡ some key)
    × PayloadFits limits n.payload
    × (length key ≤ limits.max_fact_bytes)
    × ObservationValid limits n.payload n.evidence

pub keyed_fact-Accepted :
    (limits : FactCodecLimits) (fact n : AnalysisFact) (key : List ℕ)
    → Storable limits fact
    → ◌≡◌ {A = Option (List ℕ × AnalysisFact)} (keyed_fact fact) (some (key, n))
    → Accepted limits key n
unfolding Storable Accepted ObservationValid IfSome
keyed_fact-Accepted limits fact n key s h =
    let (v, e) = keyed_fact_valid fact n key h in
    let (pf, kl, ef, el) =
      subst
        (IfSome (λ keyed.
          PayloadFits limits keyed.1.payload
          × (length keyed.0 ≤ limits.max_fact_bytes)
          × EvidenceFits limits keyed.1.evidence
          × (length (evidence_key keyed.1.evidence) ≤ limits.max_fact_bytes)))
        h s in
    (e, pf, kl, (v, ef, el))

pub entry_payload_valid :
    (limits : FactCodecLimits) (payload : FactPayload) (observations : List Evidence)
    → All (ObservationValid limits payload) observations
    → NonEmpty observations
    → validate_payload payload ≡ true
unfolding ObservationValid NonEmpty
entry_payload_valid limits payload [] obs h = absurd h
entry_payload_valid limits payload (e ∷ observations) (o, obs) h =
    validate_fact_payload (record { payload = payload; evidence = e }) o.0

-- The payloads of two facts with the same key are the same.
payload_at_key :
    (limits : FactCodecLimits) (key : List ℕ) (n : AnalysisFact) (entry : Entry)
    → entry.key ≡ key
    → Accepted limits key n
    → EntryValid limits entry
    → entry.value.payload ≡ n.payload
unfolding Accepted EntryValid ObservationValid
payload_at_key limits key n entry e (ep, pf, kl, ov) (kp, kf, kk, obs, sorted, some_obs) =
    payload_from_key limits entry.value.payload n.payload key
      (entry_payload_valid limits entry.value.payload entry.value.observations obs some_obs)
      (validate_fact_payload n ov.0) (kp ∙ ap some e) ep kf pf kl

place-NonEmpty :
    (k : List ℕ) (f : Option Evidence → Evidence) (xs : List Evidence)
    → NonEmpty (place evidence_key k f xs)
unfolding NonEmpty
place-NonEmpty k f [] = tt
place-NonEmpty k f (x ∷ xs) =
    if_rule NonEmpty (less_bytes (evidence_key x) k) _ _ (λ less. tt)
      (λ not_less. if_rule NonEmpty (equal_bytes (evidence_key x) k) _ _ (λ same. tt) (λ other. tt))

with_fact-EntryValid :
    (limits : FactCodecLimits) (key : List ℕ) (n : AnalysisFact) (entry : Entry)
    → Accepted limits key n
    → entry.key ≡ key
    → EntryValid limits entry
    → EntryValid limits (with_fact key n (some entry))
unfolding with_fact add_evidence EntryValid Accepted
with_fact-EntryValid limits key n entry acc e v =
    let same = payload_at_key limits key n entry e acc v in
    let new = subst (λ p. ObservationValid limits p n.evidence) (sym same) (acc.3) in
    let (kp, kf, kk, obs, sorted, some_obs) = v in
    let k = evidence_key n.evidence in
    (
      kp ∙ ap some e,
      kf,
      acc.2,
      All-place evidence_key (ObservationValid limits entry.value.payload) k (λ _. n.evidence)
          entry.value.observations new (λ x _ _. new) obs,
      place-Sorted evidence_key k (λ _. n.evidence) entry.value.observations (λ _. refl) sorted,
      place-NonEmpty k (λ _. n.evidence) entry.value.observations,
    )

with_fact_new :
    (limits : FactCodecLimits) (key : List ℕ) (n : AnalysisFact)
    → Accepted limits key n
    → EntryValid limits (with_fact key n none)
unfolding with_fact Accepted EntryValid NonEmpty
with_fact_new limits key n (ep, pf, kl, ov) = (ep, pf, kl, (ov, tt), (tt, tt), tt)

with_fact_key : (key : List ℕ) (n : AnalysisFact) (m : Option Entry) → (with_fact key n m).key ≡ key
unfolding with_fact
with_fact_key key n none = refl
with_fact_key key n (some entry) = refl

add_at-IsLedger :
    (limits : FactCodecLimits) (key : List ℕ) (n : AnalysisFact) (store : EvidenceStore)
    → Accepted limits key n
    → IsLedger limits store
    → IsLedger limits (add_at key n store).1
unfolding add_at IsLedger
add_at-IsLedger limits key n store acc (sorted, valid) =
    let placed : IsLedger limits (place entry_key key (with_fact key n) store) = (
      place-Sorted entry_key key (with_fact key n) store (with_fact_key key n) sorted,
      All-place entry_key (EntryValid limits) key (with_fact key n) store
          (with_fact_new limits key n acc)
          (λ entry e v. with_fact-EntryValid limits key n entry acc e v) valid,
    ) in
    option_rule (λ (r : AddDisposition × EvidenceStore). IsLedger limits r.1)
      (find entry_key key store) _ _ (λ absent. placed)
      (λ entry there.
        option_rule (λ (r : AddDisposition × EvidenceStore). IsLedger limits r.1)
          (find evidence_key (evidence_key n.evidence) entry.value.observations) _ _ (λ new. placed)
          (λ o again. (sorted, valid)))

-- Adding a fact that fits the limits, or is rejected, to a ledger keeps it in its strict canonical
-- order, with every entry under the canonical bytes of its payload and with at least one observation,
-- all valid.
pub add-IsLedger :
    (limits : FactCodecLimits) (fact : AnalysisFact) (store : EvidenceStore)
    → Storable limits fact
    → IsLedger limits store
    → IsLedger limits (add fact store).1
unfolding add
add-IsLedger limits fact store s inv =
    option_rule (λ (r : AddDisposition × EvidenceStore). IsLedger limits r.1) (keyed_fact fact) _ _
      (λ rejected. inv)
      (λ keyed e.
        add_at-IsLedger limits keyed.0 keyed.1 store
          (keyed_fact-Accepted limits fact keyed.1 keyed.0 s e) inv)
