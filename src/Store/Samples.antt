-- ===== src/Store/Samples.antt =====
-- Small ledgers for the tests (src/evidence_store.cpp).
use viy.Base.{ℕ, ◌≡◌, refl, List, [], ◌∷◌, arith}
use viy.Facts.Schema.{Evidence, AnalysisFact}
use viy.Facts.BytesRead.{IfSome}
use viy.Facts.Validate.{validate_payload, normal_payload}
use viy.Facts.Codec.{
  normalize_evidence, normal_evidence, validate_evidence, encode_evidence,
  encode_normalized_evidence, validate_fact, normalize_fact, normalize_payload, encode_payload,
}
use viy.Facts.Fits.{EvidenceFits}
use viy.Facts.Samples.{limits, sorted, sorted_bytes, evidence, fact, sorted_encoded, sorted_fits}
use viy.Facts.Encode.{encode_normalized_payload}
use viy.Store.Defs.{
  EvidenceStore, evidence_key, add, merge, flattened_facts, add_at, keyed_fact, add_all,
}
use viy.Store.Invariant.{ObservationValid, IsLedger, Storable, add-IsLedger}
use viy.Store.Merge.{observation-Storable, merge-IsLedger}

abbrev pub later : Evidence
later = record evidence { scope = record (evidence.scope) { generation = 4 } }

abbrev pub later_fact : AnalysisFact
later_fact = record { payload = sorted; evidence = later }

pub earlier_valid : ObservationValid limits sorted evidence
unfolding ObservationValid EvidenceFits IfSome validate_fact evidence_key encode_evidence
    normalize_evidence normal_evidence encode_normalized_evidence validate_evidence validate_payload
earlier_valid = (
  refl,
  (
    (omega arith, omega arith),
    (omega arith, omega arith),
    omega arith,
    (omega arith, tt, omega arith, omega arith, omega arith),
    (omega arith, omega arith, (omega arith, (omega arith, tt))),
    (omega arith, omega arith),
  ),
  omega arith,
)

later_valid : ObservationValid limits sorted later
unfolding ObservationValid EvidenceFits IfSome validate_fact evidence_key encode_evidence
    normalize_evidence normal_evidence encode_normalized_evidence validate_evidence validate_payload
later_valid = (
  refl,
  (
    (omega arith, omega arith),
    (omega arith, omega arith),
    omega arith,
    (omega arith, tt, omega arith, omega arith, omega arith),
    (omega arith, omega arith, (omega arith, (omega arith, tt))),
    (omega arith, omega arith),
  ),
  omega arith,
)

pub earlier_Storable : Storable limits fact
unfolding normal_payload
earlier_Storable =
    observation-Storable limits sorted sorted_bytes evidence sorted_encoded sorted_fits
      (omega arith) earlier_valid

pub later_Storable : Storable limits later_fact
unfolding normal_payload
later_Storable =
    observation-Storable limits sorted sorted_bytes later sorted_encoded sorted_fits (omega arith)
      later_valid

pub empty_IsLedger : IsLedger limits []
unfolding IsLedger
empty_IsLedger = (tt, tt)

abbrev pub earlier_store : EvidenceStore
earlier_store = (add fact []).1

abbrev pub later_store : EvidenceStore
later_store = (add later_fact []).1

pub earlier_IsLedger : IsLedger limits earlier_store
earlier_IsLedger = add-IsLedger limits fact [] earlier_Storable empty_IsLedger

pub later_IsLedger : IsLedger limits later_store
later_IsLedger = add-IsLedger limits later_fact [] later_Storable empty_IsLedger

abbrev pub later_key : List ℕ
later_key = evidence_key later

abbrev pub two_runs : EvidenceStore
two_runs = (merge earlier_store later_store).1

pub two_runs-IsLedger : IsLedger limits two_runs
two_runs-IsLedger = merge-IsLedger limits earlier_store later_store earlier_IsLedger later_IsLedger

pub two_runs_facts : flattened_facts two_runs ≡ fact ∷ later_fact ∷ []
unfolding flattened_facts merge add_all add add_at keyed_fact normalize_fact normalize_payload
    normalize_evidence encode_payload encode_evidence validate_fact normal_evidence
    encode_normalized_evidence validate_evidence validate_payload normal_payload
    encode_normalized_payload evidence_key
two_runs_facts = refl
