-- ===== src/Store/Defs.antt =====
-- The ledger, its insertion, its merge and its views (src/evidence_store.hpp and
-- src/evidence_store.cpp). The map of records is the list of its entries in the order of their keys;
-- lower_bound and the comparison by evidence_less are the place of a key among sorted keys.
use viy.Base.{ℕ, suc, ◌+◌, Bool, false, Option, none, some, List, [], ◌∷◌, ◌++◌, length}
use viy.Base.Keyed.{find, has, place}
use viy.Facts.Schema.{Evidence, FactPayload, AnalysisFact}
use viy.Facts.Bytes.{◌>>=◌}
use viy.Facts.Codec.{encode_payload, encode_evidence, normalize_fact}

pub record EvidenceRecord : Type 0 where
  pub payload : FactPayload
  pub observations : List Evidence

-- An entry of the map: the canonical bytes of the payload, and the record.
pub record Entry : Type 0 where
  pub key : List ℕ
  pub value : EvidenceRecord

abbrev pub EvidenceStore : Type 0
EvidenceStore = List Entry

pub data AddDisposition : Type 0 where
  inserted_record added_observation duplicate_observation rejected_invalid : AddDisposition

abbrev pub entry_key : Entry → List ℕ
entry_key entry = entry.key

-- What evidence_less compares: the canonical bytes, and for invalid evidence a key behind all of
-- these, without the error text.
unfoldable pub evidence_key : Evidence → List ℕ
evidence_key evidence = elim (encode_evidence evidence) [ none ↦ 255 ∷ [] | some bytes ↦ bytes ]

unfoldable pub add_evidence : Evidence → List Evidence → List Evidence
add_evidence evidence observations =
    place evidence_key (evidence_key evidence) (λ _. evidence) observations

-- The entry under the key of a fact, with the fact's observation.
unfoldable pub with_fact : List ℕ → AnalysisFact → Option Entry → Entry
unfolding add_evidence
with_fact key fact none = record {
  key = key;
  value = record { payload = fact.payload; observations = fact.evidence ∷ [] };
}
with_fact key fact (some entry) = record {
  key = key;
  value = record {
    payload = entry.value.payload;
    observations = add_evidence fact.evidence entry.value.observations;
  };
}

unfoldable pub add_at : List ℕ → AnalysisFact → EvidenceStore → AddDisposition × EvidenceStore
unfolding with_fact
add_at key fact store = elim (find entry_key key store) [
  | none ↦ (inserted_record, place entry_key key (with_fact key fact) store)
  | some entry ↦ elim (find evidence_key (evidence_key fact.evidence) entry.value.observations) [
    | some _ ↦ (duplicate_observation, store)
    | none ↦ (added_observation, place entry_key key (with_fact key fact) store)
  ]
]

-- A fact's normal form and its key, when it is valid.
unfoldable pub keyed_fact : AnalysisFact → Option (List ℕ × AnalysisFact)
keyed_fact fact = do
  normalized ← normalize_fact fact
  key ← encode_payload normalized.payload
  some (key, normalized)

unfoldable pub add : AnalysisFact → EvidenceStore → AddDisposition × EvidenceStore
unfolding add_at
add fact store = elim (keyed_fact fact) [
  | none ↦ (rejected_invalid, store)
  | some (key, normalized) ↦ add_at key normalized store
]

unfoldable pub facts_of : FactPayload → List Evidence → List AnalysisFact
facts_of payload [] = []
facts_of payload (e ∷ observations) =
    record { payload = payload; evidence = e } ∷ facts_of payload observations

unfoldable pub flattened_facts : EvidenceStore → List AnalysisFact
unfolding facts_of
flattened_facts [] = []
flattened_facts (entry ∷ store) =
    facts_of entry.value.payload entry.value.observations ++ flattened_facts store

unfoldable pub observation_count : EvidenceStore → ℕ
observation_count [] = 0
observation_count (entry ∷ store) = length entry.value.observations + observation_count store

-- Without the error texts and the number of conflicts.
pub record MergeReport : Type 0 where
  pub inserted_records : ℕ
  pub added_observations : ℕ
  pub duplicate_observations : ℕ
  pub rejected_observations : ℕ
  pub records_after : ℕ
  pub observations_after : ℕ

unfoldable pub count_disposition : AddDisposition → MergeReport → MergeReport
count_disposition inserted_record report = record report {
  inserted_records = suc report.inserted_records;
}
count_disposition added_observation report = record report {
  added_observations = suc report.added_observations;
}
count_disposition duplicate_observation report = record report {
  duplicate_observations = suc report.duplicate_observations;
}
count_disposition rejected_invalid report = record report {
  rejected_observations = suc report.rejected_observations;
}

unfoldable pub add_all :
    List AnalysisFact → MergeReport × EvidenceStore → MergeReport × EvidenceStore
unfolding add count_disposition
add_all [] state = state
add_all (fact ∷ facts) (report, store) =
    add_all facts (count_disposition (add fact store).0 report, (add fact store).1)

abbrev pub empty_report : MergeReport
empty_report = record {
  inserted_records = 0;
  added_observations = 0;
  duplicate_observations = 0;
  rejected_observations = 0;
  records_after = 0;
  observations_after = 0;
}

unfoldable pub merge : EvidenceStore → EvidenceStore → MergeReport × EvidenceStore
unfolding add_all flattened_facts observation_count
merge store other =
    let merged = add_all (flattened_facts other) (empty_report, store) in
    (
      record (merged.0) {
        records_after = length (merged.1);
        observations_after = observation_count (merged.1);
      },
      merged.1,
    )

-- What a store has: an observation with these canonical bytes, of a payload with those.
unfoldable pub contains : List ℕ → List ℕ → EvidenceStore → Bool
contains payload_key key store = elim (find entry_key payload_key store) [
  | none ↦ false
  | some entry ↦ has evidence_key key entry.value.observations
]
