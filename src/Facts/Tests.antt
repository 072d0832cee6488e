-- ===== src/Facts/Tests.antt =====
-- Runs on small facts (src/analysis_facts.cpp).
use viy.Base.{◌∷◌, [], ◌≡◌, refl, true, some, arith}
use viy.Facts.Bytes.{
  read_magic, read_version, read_be, read_enum, read_sized, read_optional, read_count,
}
use viy.Facts.Validate.{normal_payload, validate_payload}
use viy.Facts.Encode.{encode_normalized_payload}
use viy.Facts.Decode.{read_items, decode_payload_body}
use viy.Facts.Codec.{
  normalize_payload, read_payload, read_evidence, read_scope, split_fact, join_fact, normalize_fact,
  validate_fact, normalize_evidence, normal_evidence, encode_normalized_evidence, encode_payload,
  decode_payload, decode_evidence, validate_evidence, encode_analysis_fact, decode_analysis_fact,
}
use viy.Facts.Canonical.{decode_payload-encode_payload, encode_payload-decode_payload}
use viy.Facts.FactRead.{decode_analysis_fact-encode_analysis_fact}
use viy.Facts.BytesRead.{IfSome}
use viy.Facts.Fits.{EvidenceFits}
use viy.Facts.Sha256.{sha256_bytes}
use viy.Facts.Samples.{
  limits, shuffled, sorted, sorted_bytes, evidence, evidence_bytes, fact, fact_bytes, sorted_fits,
}

-- Sorted and without the repetition.
shuffled_encoded : encode_payload shuffled ≡ some sorted_bytes
unfolding encode_payload normalize_payload validate_payload normal_payload encode_normalized_payload
shuffled_encoded = refl

sorted_decoded : decode_payload limits sorted_bytes ≡ some sorted
unfolding decode_payload read_payload normalize_payload validate_payload normal_payload
    encode_normalized_payload read_magic read_version read_be read_enum decode_payload_body
sorted_decoded = refl

decode_payload-encode_payload_example :
    decode_payload limits sorted_bytes ≡ some (normal_payload shuffled)
decode_payload-encode_payload_example =
    decode_payload-encode_payload limits shuffled sorted_bytes shuffled_encoded sorted_fits
      (omega arith)

encode_payload-decode_payload_example :
    (validate_payload sorted ≡ true) × (encode_payload sorted ≡ some sorted_bytes)
encode_payload-decode_payload_example =
    encode_payload-decode_payload limits sorted_bytes sorted sorted_decoded

evidence_decoded : decode_evidence limits evidence_bytes ≡ some evidence
unfolding decode_evidence read_evidence validate_evidence encode_normalized_evidence read_magic
    read_version read_be read_enum read_sized read_scope read_optional read_count read_items
evidence_decoded = refl

fact_decoded : decode_analysis_fact limits fact_bytes ≡ some fact
unfolding decode_analysis_fact split_fact decode_payload decode_evidence encode_analysis_fact
    normalize_fact validate_fact normalize_evidence normal_evidence join_fact read_payload
    normalize_payload validate_payload normal_payload encode_normalized_payload decode_payload_body
    read_evidence validate_evidence encode_normalized_evidence read_magic read_version read_be
    read_enum read_sized read_scope read_optional read_count read_items
fact_decoded = refl

fact_normal : normalize_fact fact ≡ some fact
unfolding normalize_fact validate_fact normalize_evidence normal_evidence normalize_payload
    validate_payload normal_payload validate_evidence
fact_normal = refl

fact_encoded : encode_analysis_fact fact ≡ some fact_bytes
unfolding encode_analysis_fact normalize_fact validate_fact normalize_evidence normal_evidence
    join_fact normalize_payload validate_payload normal_payload encode_normalized_payload
    validate_evidence encode_normalized_evidence
fact_encoded = refl

evidence_fits : EvidenceFits limits evidence
unfolding EvidenceFits IfSome
evidence_fits = (
  (omega arith, omega arith),
  (omega arith, omega arith),
  omega arith,
  (omega arith, tt, omega arith, omega arith, omega arith),
  (omega arith, omega arith, (omega arith, (omega arith, tt))),
  (omega arith, omega arith),
)

decode_analysis_fact-encode_analysis_fact_example :
    decode_analysis_fact limits fact_bytes ≡ some fact
unfolding normal_payload
decode_analysis_fact-encode_analysis_fact_example =
    decode_analysis_fact-encode_analysis_fact limits fact fact fact_bytes fact_normal fact_encoded
      sorted_fits evidence_fits (omega arith)

-- The digest of "abc".
sha256_abc :
    sha256_bytes (97 ∷ 98 ∷ 99 ∷ [])
    ≡ 0xba ∷ 0x78 ∷ 0x16 ∷ 0xbf ∷ 0x8f ∷ 0x01 ∷ 0xcf ∷ 0xea ∷ 0x41 ∷ 0x41 ∷ 0x40 ∷ 0xde ∷ 0x5d
      ∷ 0xae ∷ 0x22 ∷ 0x23 ∷ 0xb0 ∷ 0x03 ∷ 0x61 ∷ 0xa3 ∷ 0x96 ∷ 0x17 ∷ 0x7a ∷ 0x9c ∷ 0xb4 ∷ 0x10
      ∷ 0xff ∷ 0x61 ∷ 0xf2 ∷ 0x00 ∷ 0x15 ∷ 0xad ∷ []
unfolding sha256_bytes
sha256_abc = refl
