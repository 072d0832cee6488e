-- ===== src/Facts/Valid.antt =====
-- Facts that are valid are encoded, and told apart by their bytes (src/analysis_facts.cpp).
use viy.Base.{ℕ, ◌≤◌, ◌≡◌, refl, sym, ap, ◌∙◌, true, ◌&&◌, some, List, ◌++◌, length, arith, leb}
use viy.Facts.Schema.{Evidence, FactPayload, AnalysisFact}
use viy.Facts.Bytes.{◌>>=◌, write_be, FactCodecLimits, writable}
use viy.Facts.Encode.{encode_normalized_payload}
use viy.Facts.Validate.{validate_payload, max_u32}
use viy.Facts.Codec.{
  normalize_payload, encode_payload, validate_evidence, normalize_evidence, evidence_body,
  evidence_magic, encode_normalized_evidence, encode_evidence, validate_fact, normalize_fact,
}
use viy.Facts.Canonical.{
  bind_some, ensure-some, some_injective, normalize_payload_valid, normalize_evidence_valid,
  decode_payload_valid,
}
use viy.Facts.Fits.{PayloadFits, EvidenceFits}
use viy.Facts.EvidenceRead.{decode_evidence-encode_normalized_evidence}

pub validate_fact_payload :
    (f : AnalysisFact) → validate_fact f ≡ true → validate_payload f.payload ≡ true
unfolding validate_fact
validate_fact_payload f h = ground arith

pub validate_fact_evidence :
    (f : AnalysisFact) → validate_fact f ≡ true → validate_evidence f.evidence ≡ true
unfolding validate_fact
validate_fact_evidence f h = ground arith

pub normalize_fact_valid : (f : AnalysisFact) → validate_fact f ≡ true → normalize_fact f ≡ some f
unfolding normalize_fact
normalize_fact_valid f h =
    rw
      (
        normalize_payload_valid f.payload (validate_fact_payload f h),
        normalize_evidence_valid f.evidence (validate_fact_evidence f h),
        h,
      )
      refl

pub normalize_fact_result :
    (f n : AnalysisFact) → normalize_fact f ≡ some n → validate_fact n ≡ true
unfolding normalize_fact
normalize_fact_result f n h =
    let (payload, h0, h1) = bind_some (normalize_payload f.payload) _ n h in
    let (evidence, h2, h3) = bind_some (normalize_evidence f.evidence) _ n h1 in
    let pair : AnalysisFact = record { payload = payload; evidence = evidence } in
    let (valid, e) = ensure-some (validate_fact pair) pair n h3 in ap validate_fact (sym e) ∙ valid

sizes_writable :
    (e : Evidence)
    → validate_evidence e ≡ true
    → (writable e.producer
        && writable e.method
        && leb (length e.support_addresses) max_u32
        && writable e.detail)
      ≡ true
unfolding validate_evidence writable
sizes_writable e h = ground arith

-- Valid evidence can be written.
pub encode_evidence_valid :
    (e : Evidence)
    → validate_evidence e ≡ true
    → (bytes : List ℕ) × (encode_evidence e ≡ some bytes)
unfolding encode_evidence encode_normalized_evidence
encode_evidence_valid e h = (
  evidence_magic ++ write_be 2 1 (evidence_body e),
  rw (normalize_evidence_valid e h, sizes_writable e h) refl,
)

-- Valid payloads with the same bytes are equal, when these fit.
pub payload_from_key :
    (limits : FactCodecLimits) (p q : FactPayload) (bytes : List ℕ)
    → validate_payload p ≡ true
    → validate_payload q ≡ true
    → encode_payload p ≡ some bytes
    → encode_payload q ≡ some bytes
    → PayloadFits limits p
    → PayloadFits limits q
    → length bytes ≤ limits.max_fact_bytes
    → p ≡ q
unfolding encode_payload
payload_from_key limits p q bytes vp vq ep eq fp fq le =
    let back_p =
      ap (λ m. m >>= encode_normalized_payload) (sym (normalize_payload_valid p vp)) ∙ ep in
    let back_q =
      ap (λ m. m >>= encode_normalized_payload) (sym (normalize_payload_valid q vq)) ∙ eq in
    some_injective (
      sym (decode_payload_valid limits p bytes vp back_p fp le)
      ∙ decode_payload_valid limits q bytes vq back_q fq le)

-- The same for evidence.
pub evidence_from_key :
    (limits : FactCodecLimits) (e f : Evidence) (bytes : List ℕ)
    → validate_evidence e ≡ true
    → validate_evidence f ≡ true
    → encode_evidence e ≡ some bytes
    → encode_evidence f ≡ some bytes
    → EvidenceFits limits e
    → EvidenceFits limits f
    → length bytes ≤ limits.max_fact_bytes
    → e ≡ f
unfolding encode_evidence
evidence_from_key limits e f bytes ve vf he hf fe ff le =
    let back_e =
      ap (λ m. m >>= encode_normalized_evidence) (sym (normalize_evidence_valid e ve)) ∙ he in
    let back_f =
      ap (λ m. m >>= encode_normalized_evidence) (sym (normalize_evidence_valid f vf)) ∙ hf in
    some_injective (
      sym (decode_evidence-encode_normalized_evidence limits e bytes ve back_e fe le)
      ∙ decode_evidence-encode_normalized_evidence limits f bytes vf back_f ff le)
