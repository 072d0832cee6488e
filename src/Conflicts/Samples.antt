-- ===== src/Conflicts/Samples.antt =====
-- A ledger with two facts that contradict each other, for the tests (src/evidence_store.cpp).
use viy.Base.{ℕ, ◌≡◌, refl, some, List, [], ◌∷◌, arith}
use viy.Facts.Kinds.{code_bytes, data_bytes}
use viy.Facts.Schema.{FactPayload, code_region}
use viy.Facts.Validate.{validate_payload, normal_payload}
use viy.Facts.Encode.{encode_normalized_payload}
use viy.Facts.Codec.{normalize_payload, encode_payload, validate_evidence, validate_fact}
use viy.Facts.Fits.{PayloadFits}
use viy.Facts.Samples.{limits, evidence}
use viy.Store.Defs.{EvidenceStore, add}
use viy.Store.Invariant.{ObservationValid, IsLedger, Storable, add-IsLedger}
use viy.Store.Merge.{observation-Storable}
use viy.Store.Samples.{earlier_valid, empty_IsLedger}

abbrev pub code : FactPayload
code = code_region (record { start = 0x1000; end = 0x1010; kind = code_bytes })

abbrev pub data_inside : FactPayload
data_inside = code_region (record { start = 0x1008; end = 0x1020; kind = data_bytes })

abbrev pub code_key : List ℕ
code_key =
    86 ∷ 73 ∷ 89 ∷ 80 ∷ 0 ∷ 1 ∷ 8 ∷ 0 ∷ 0 ∷ 0 ∷ 0 ∷ 0 ∷ 0 ∷ 16 ∷ 0 ∷ 0 ∷ 0 ∷ 0 ∷ 0 ∷ 0 ∷ 0 ∷ 16 ∷ 16
    ∷ 1 ∷ []

abbrev pub data_key : List ℕ
data_key =
    86 ∷ 73 ∷ 89 ∷ 80 ∷ 0 ∷ 1 ∷ 8 ∷ 0 ∷ 0 ∷ 0 ∷ 0 ∷ 0 ∷ 0 ∷ 16 ∷ 8 ∷ 0 ∷ 0 ∷ 0 ∷ 0 ∷ 0 ∷ 0 ∷ 16 ∷ 32
    ∷ 2 ∷ []

code_encoded : encode_payload code ≡ some code_key
unfolding encode_payload normalize_payload validate_payload normal_payload encode_normalized_payload
code_encoded = refl

data_encoded : encode_payload data_inside ≡ some data_key
unfolding encode_payload normalize_payload validate_payload normal_payload encode_normalized_payload
data_encoded = refl

code_valid : ObservationValid limits code evidence
unfolding ObservationValid validate_fact validate_payload validate_evidence
code_valid = (refl, earlier_valid.1, earlier_valid.2)

data_valid : ObservationValid limits data_inside evidence
unfolding ObservationValid validate_fact validate_payload validate_evidence
data_valid = (refl, earlier_valid.1, earlier_valid.2)

code_fits : PayloadFits limits code
unfolding PayloadFits
code_fits = (omega arith, omega arith)

data_fits : PayloadFits limits data_inside
unfolding PayloadFits
data_fits = (omega arith, omega arith)

code-Storable : Storable limits (record { payload = code; evidence = evidence })
code-Storable =
    observation-Storable limits code code_key evidence code_encoded code_fits (omega arith)
      code_valid

data_inside-Storable : Storable limits (record { payload = data_inside; evidence = evidence })
data_inside-Storable =
    observation-Storable limits data_inside data_key evidence data_encoded data_fits (omega arith)
      data_valid

abbrev pub code_store : EvidenceStore
code_store = (add (record { payload = code; evidence = evidence }) []).1

abbrev pub overlapping : EvidenceStore
overlapping = (add (record { payload = data_inside; evidence = evidence }) code_store).1

pub overlapping-IsLedger : IsLedger limits overlapping
overlapping-IsLedger =
    add-IsLedger limits (record { payload = data_inside; evidence = evidence }) code_store
      data_inside-Storable
      (add-IsLedger limits (record { payload = code; evidence = evidence }) [] code-Storable
        empty_IsLedger)
