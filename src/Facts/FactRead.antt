-- ===== src/Facts/FactRead.antt =====
-- A fact is read back from its canonical bytes (src/analysis_facts.cpp).
use viy.Base.{
  ℕ, ◌+◌, ◌<◌, ◌≤◌, ◌^◌, ◌≡◌, refl, sym, ap, ◌∙◌, true, ◌&&◌, some, List, [], ◌++◌, length,
  length-append, leb, arith,
}
use viy.Base.Lex.{equal_bytes_self}
use viy.Facts.Schema.{AnalysisFact}
use viy.Facts.Bytes.{FactCodecLimits, ◌>>=◌, write_be, write_blob, writable}
use viy.Facts.BytesRead.{read_magic-append, read_version-write_be, read_sized-write_blob}
use viy.Facts.Encode.{encode_normalized_payload}
use viy.Facts.Codec.{
  fact_magic, encode_normalized_evidence, normalize_fact, join_fact, encode_analysis_fact,
  split_fact, decode_analysis_fact,
}
use viy.Facts.Canonical.{bind_some, ensure-some, decode_payload_valid}
use viy.Facts.EvidenceRead.{decode_evidence-encode_normalized_evidence}
use viy.Facts.Valid.{
  validate_fact_payload, validate_fact_evidence, normalize_fact_valid, normalize_fact_result,
}
use viy.Facts.Fits.{PayloadFits, EvidenceFits}

abbrev fact_form : List ℕ → List ℕ → List ℕ
fact_form payload evidence =
    fact_magic ++ write_be 2 1 (write_blob payload (write_blob evidence []))

length-fact_form : (p e : List ℕ) → length (fact_form p e) ≡ 14 + length p + length e
unfolding write_be write_blob
length-fact_form p e = ground (arith, length-append p (write_blob e []), length-append e [])

-- The two parts of what join_fact has written.
split_fact-join_fact :
    (limits : FactCodecLimits) (p e bytes : List ℕ)
    → join_fact p e ≡ some bytes
    → length bytes ≤ limits.max_fact_bytes
    → (split_fact limits bytes ≡ some (p, e))
      × (length p ≤ limits.max_fact_bytes)
      × (length e ≤ limits.max_fact_bytes)
unfolding join_fact split_fact writable
split_fact-join_fact limits p e bytes h le =
    let (fits, form) = ensure-some (writable p && writable e) (fact_form p e) bytes h in
    let total : length bytes ≡ 14 + length p + length e =
      ap length (sym form) ∙ length-fact_form p e in
    let lp : length p < 2 ^ 32 = ground arith in
    let lle : length e < 2 ^ 32 = ground arith in
    let mp : length p ≤ limits.max_fact_bytes = omega arith in
    let me : length e ≤ limits.max_fact_bytes = omega arith in
    (
      ap (split_fact limits) (sym form)
          ∙ rw
              (
                read_magic-append fact_magic (write_be 2 1 (write_blob p (write_blob e []))),
                read_version-write_be (write_blob p (write_blob e [])),
                read_sized-write_blob limits.max_fact_bytes p (write_blob e []) lp mp,
                read_sized-write_blob limits.max_fact_bytes e [] lle me,
              )
              refl,
      mp,
      me,
    )

encode_normal :
    (f n : AnalysisFact) (bytes : List ℕ)
    → normalize_fact f ≡ some n
    → encode_analysis_fact f ≡ some bytes
    → (p : List ℕ) × (e : List ℕ) × (encode_normalized_payload n.payload ≡ some p)
      × (encode_normalized_evidence n.evidence ≡ some e)
      × (join_fact p e ≡ some bytes)
unfolding encode_analysis_fact
encode_normal f n bytes k h =
    let whole =
      ap
        (λ m. m >>= λ (x : AnalysisFact). encode_normalized_payload x.payload >>= λ p.
          encode_normalized_evidence x.evidence >>= λ e. join_fact p e)
        (sym k)
      ∙ h in
    let (p, hp, h1) = bind_some (encode_normalized_payload n.payload) _ bytes whole in
    let (e, he, h2) = bind_some (encode_normalized_evidence n.evidence) _ bytes h1 in
    (p, e, hp, he, h2)

-- What encode_analysis_fact writes for a fact is decoded to its normal form, when the numbers of the
-- normal form are in the range of their types and its lengths and the bytes are within the limits.
pub decode_analysis_fact-encode_analysis_fact :
    (limits : FactCodecLimits) (fact normal : AnalysisFact) (bytes : List ℕ)
    → normalize_fact fact ≡ some normal
    → encode_analysis_fact fact ≡ some bytes
    → PayloadFits limits normal.payload
    → EvidenceFits limits normal.evidence
    → length bytes ≤ limits.max_fact_bytes
    → decode_analysis_fact limits bytes ≡ some normal
unfolding decode_analysis_fact encode_analysis_fact
decode_analysis_fact-encode_analysis_fact limits fact normal bytes k h pf ef le =
    let valid = normalize_fact_result fact normal k in
    let (p, e, hp, he, joined) = encode_normal fact normal bytes k h in
    let (parts, mp, me) = split_fact-join_fact limits p e bytes joined le in
    let size : leb (length bytes) limits.max_fact_bytes ≡ true = ground arith in
    let again : encode_analysis_fact normal ≡ some bytes =
      rw (normalize_fact_valid normal valid, hp, he) joined in
    rw
      (
        size,
        parts,
        decode_payload_valid limits normal.payload p (validate_fact_payload normal valid) hp pf mp,
        decode_evidence-encode_normalized_evidence limits normal.evidence e
            (validate_fact_evidence normal valid) he ef me,
        again,
        equal_bytes_self bytes,
      )
      refl
