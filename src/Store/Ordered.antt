-- ===== src/Store/Ordered.antt =====
-- The order in which the facts of a ledger are saved (src/evidence_store.cpp).
use viy.Base.{
  ℕ, ◌≡◌, refl, true, false, ◌&&◌, Bool-cases, inl, inr, Option, some, List, [], ◌∷◌, ◌++◌, All,
}
use viy.Base.Lex.{less_bytes, less_bytes_self, equal_bytes, equal_bytes→≡}
use viy.Base.Keyed.{Sorted}
use viy.Facts.Bytes.{FactCodecLimits}
use viy.Facts.Fits.{PayloadFits, EvidenceFits}
use viy.Facts.Schema.{Evidence, FactPayload, AnalysisFact}
use viy.Facts.Codec.{encode_payload, validate_fact, normalize_fact}
use viy.Facts.Valid.{normalize_fact_valid}
use viy.Store.Defs.{EvidenceStore, entry_key, evidence_key, keyed_fact, facts_of, flattened_facts}
use viy.Store.Invariant.{ObservationValid, EntryValid, IsLedger}
use viy.Store.Envelope.{payload_key, analysis_fact_less}

-- A fact that is saved as it stands.
unfoldable pub Saved : FactCodecLimits → AnalysisFact → Type 0
Saved limits fact =
    (encode_payload fact.payload ≡ some (payload_key fact.payload))
    × (validate_fact fact ≡ true)
    × PayloadFits limits fact.payload
    × EvidenceFits limits fact.evidence

-- Each fact is less than all behind it.
unfoldable pub Ordered : List AnalysisFact → Type 0
Ordered [] = Unit
Ordered (f ∷ facts) = All (λ g. analysis_fact_less f g ≡ true) facts × Ordered facts

All-both {ℓ κ} :
    {A : Type ℓ} (P : A → Type κ) (xs ys : List A) → All P xs → All P ys → All P (xs ++ ys)
All-both P [] ys a b = b
All-both P (x ∷ xs) ys (h, a) b = (h, All-both P xs ys a b)

payload_key-some :
    (p : FactPayload) (key : List ℕ) → encode_payload p ≡ some key → payload_key p ≡ key
unfolding payload_key
payload_key-some p key h = rw (payload_key, h) refl

facts_of-Saved :
    (limits : FactCodecLimits) (p : FactPayload) (key : List ℕ) (observations : List Evidence)
    → encode_payload p ≡ some key
    → PayloadFits limits p
    → All (ObservationValid limits p) observations
    → All (Saved limits) (facts_of p observations)
unfolding facts_of Saved ObservationValid
facts_of-Saved limits p key [] k fits o = tt
facts_of-Saved limits p key (e ∷ observations) k fits (o, os) = (
  (rw (payload_key-some p key k) k, o.0, fits, o.1),
  facts_of-Saved limits p key observations k fits os,
)

entries-Saved :
    (limits : FactCodecLimits) (store : EvidenceStore)
    → All (EntryValid limits) store
    → All (Saved limits) (flattened_facts store)
unfolding flattened_facts EntryValid
entries-Saved limits [] v = tt
entries-Saved limits (x ∷ store) ((k, fits, le, o, s, n), vs) =
    All-both (Saved limits) (facts_of x.value.payload x.value.observations) (flattened_facts store)
      (facts_of-Saved limits x.value.payload x.key x.value.observations k fits o)
      (entries-Saved limits store vs)

-- Facts of two payloads, and of one payload.
less_payload :
    (f g : AnalysisFact)
    → less_bytes (payload_key f.payload) (payload_key g.payload) ≡ true
    → analysis_fact_less f g ≡ true
unfolding analysis_fact_less
less_payload f g h = rw h refl

less_observation :
    (p : FactPayload) (d e : Evidence)
    → less_bytes (evidence_key d) (evidence_key e) ≡ true
    → analysis_fact_less
        (record { payload = p; evidence = d })
        (record { payload = p; evidence = e })
      ≡ true
unfolding analysis_fact_less
less_observation p d e h = rw (less_bytes_self (payload_key p)) h

All-less_observation :
    (p : FactPayload) (d : Evidence) (observations : List Evidence)
    → All (λ e. less_bytes (evidence_key d) (evidence_key e) ≡ true) observations
    → All
        (λ g. analysis_fact_less (record { payload = p; evidence = d }) g ≡ true)
        (facts_of p observations)
unfolding facts_of
All-less_observation p d [] h = tt
All-less_observation p d (e ∷ observations) (h, hs) =
    (less_observation p d e h, All-less_observation p d observations hs)

-- All of these facts are of payloads behind a key.
Behind : List ℕ → List AnalysisFact → Type 0
Behind key = All λ g. less_bytes key (payload_key g.payload) ≡ true

facts_of-Behind :
    (key : List ℕ) (p : FactPayload) (observations : List Evidence)
    → less_bytes key (payload_key p) ≡ true
    → Behind key (facts_of p observations)
unfolding facts_of Behind
facts_of-Behind key p [] h = tt
facts_of-Behind key p (e ∷ observations) h = (h, facts_of-Behind key p observations h)

entries-Behind :
    (limits : FactCodecLimits) (key : List ℕ) (store : EvidenceStore)
    → All (EntryValid limits) store
    → All (λ y. less_bytes key (entry_key y) ≡ true) store
    → Behind key (flattened_facts store)
unfolding flattened_facts EntryValid Behind
entries-Behind limits key [] v a = tt
entries-Behind limits key (x ∷ store) ((k, fits, le, o, s, n), vs) (a, above) =
    All-both (λ g. less_bytes key (payload_key g.payload) ≡ true)
      (facts_of x.value.payload x.value.observations) (flattened_facts store)
      (facts_of-Behind key x.value.payload x.value.observations
        (rw (payload_key-some x.value.payload x.key k) a))
      (entries-Behind limits key store vs above)

Behind-less :
    (f : AnalysisFact) (facts : List AnalysisFact)
    → Behind (payload_key f.payload) facts
    → All (λ g. analysis_fact_less f g ≡ true) facts
unfolding Behind
Behind-less f [] h = tt
Behind-less f (g ∷ facts) (h, hs) = (less_payload f g h, Behind-less f facts hs)

facts_of-Ordered :
    (p : FactPayload) (observations : List Evidence) (rest : List AnalysisFact)
    → Sorted evidence_key observations
    → Behind (payload_key p) rest
    → Ordered rest
    → Ordered (facts_of p observations ++ rest)
unfolding facts_of Ordered
facts_of-Ordered p [] rest s b o = o
facts_of-Ordered p (e ∷ observations) rest (a, s) b o = (
  All-both (λ g. analysis_fact_less (record { payload = p; evidence = e }) g ≡ true)
      (facts_of p observations) rest (All-less_observation p e observations a)
      (Behind-less (record { payload = p; evidence = e }) rest b),
  facts_of-Ordered p observations rest s b o,
)

entries-Ordered :
    (limits : FactCodecLimits) (store : EvidenceStore)
    → Sorted entry_key store
    → All (EntryValid limits) store
    → Ordered (flattened_facts store)
unfolding flattened_facts EntryValid Ordered
entries-Ordered limits [] s v = tt
entries-Ordered limits (x ∷ store) (a, s) ((k, fits, le, o, so, n), vs) =
    facts_of-Ordered x.value.payload x.value.observations (flattened_facts store) so
      (rw (payload_key-some x.value.payload x.key k) (entries-Behind limits x.key store vs a))
      (entries-Ordered limits store s vs)

pub flattened_facts-Ordered :
    (limits : FactCodecLimits) (store : EvidenceStore)
    → IsLedger limits store
    → Ordered (flattened_facts store) × All (Saved limits) (flattened_facts store)
unfolding IsLedger
flattened_facts-Ordered limits store (s, v) =
    (entries-Ordered limits store s v, entries-Saved limits store v)

-- A saved fact is its own normal form, under its payload's key.
pub keyed_fact-Saved :
    (limits : FactCodecLimits) (f : AnalysisFact)
    → Saved limits f
    → (normalize_fact f ≡ some f)
      × ◌≡◌ {A = Option (List ℕ × AnalysisFact)} (keyed_fact f) (some (payload_key f.payload, f))
unfolding keyed_fact Saved
keyed_fact-Saved limits f (k, v, pf, ef) = let n = normalize_fact_valid f v in (n, rw (n, k) refl)

same_not_less :
    (f g : AnalysisFact)
    → payload_key f.payload ≡ payload_key g.payload
    → evidence_key f.evidence ≡ evidence_key g.evidence
    → analysis_fact_less f g ≡ false
unfolding analysis_fact_less
same_not_less f g p e =
    rw (p, e, less_bytes_self (payload_key g.payload), less_bytes_self (evidence_key g.evidence))
      refl

-- Facts of which one is less differ in their keys.
pub less_differ :
    (f g : AnalysisFact)
    → analysis_fact_less f g ≡ true
    → (equal_bytes (payload_key f.payload) (payload_key g.payload)
        && equal_bytes (evidence_key f.evidence) (evidence_key g.evidence))
      ≡ false
less_differ f g h =
    elim (Bool-cases (equal_bytes (payload_key f.payload) (payload_key g.payload))) [
      | inr other ↦ rw other refl
      | inl same ↦
          elim (Bool-cases (equal_bytes (evidence_key f.evidence) (evidence_key g.evidence))) [
            | inr apart ↦ rw (same, apart) refl
            | inl equal ↦
                let no : analysis_fact_less f g ≡ false =
                  same_not_less f g (equal_bytes→≡ _ _ same) (equal_bytes→≡ _ _ equal) in
                cc
          ]
    ]
