-- ===== src/Facts/Canonical.antt =====
-- What a decoder accepts is the canonical encoding of what it gives, and an encoding is decoded to
-- the normal form of what was encoded (src/analysis_facts.cpp).
use viy.Base.{
  ℕ, ◌≤◌, ◌≡◌, refl, sym, ap, subst, ◌∙◌, Bool, true, false, Option, none, some, List, ◌∷◌, ◌++◌,
  arith, length, leb,
}
use viy.Base.Lex.{equal_bytes, equal_bytes→≡, equal_bytes_self}
use viy.Facts.Enums.{
  code_target_kind, branch_reachability_kind, memory_access_kind, memory_value_kind,
  string_candidate_kind, function_candidate_kind, function_trait_kind, code_region_kind,
  dispatch_map_kind, cfg_candidate_kind, function_outcome_kind, register_value_kind,
  call_observation_kind, FactKind, fact_kind_code, fact_kind_list,
}
use viy.Facts.Codes.{fact_kind_list_lem}
use viy.Facts.Schema.{Evidence, FactPayload, fact_kind}
use viy.Facts.Bytes.{◌>>=◌, FactCodecLimits, write_be}
use viy.Facts.BytesRead.{read_magic-append, read_version-write_be, read_enum-code}
use viy.Facts.Encode.{payload_magic, payload_body, payload_writable, encode_normalized_payload}
use viy.Facts.Validate.{normal_payload, validate_payload}
use viy.Facts.Codec.{
  ensure, normalize_payload, encode_payload, read_payload, decode_payload, validate_evidence,
  normalize_evidence,
}
use viy.Facts.Normal.{normal_payload_valid, normal_evidence_valid}
use viy.Facts.Fits.{PayloadFits}
use viy.Facts.PayloadRead.{decode_payload_body-payload_body}

pub some_injective {ℓ} : {A : Type ℓ} {a b : A} → some a ≡ some b → a ≡ b
some_injective h = cc

-- The steps of a chain that gave a result.
pub bind_some {ℓ κ} :
    {A : Type ℓ} {B : Type κ} (m : Option A) (f : A → Option B) (b : B)
    → (m >>= f) ≡ some b
    → (a : A) × (m ≡ some a) × (f a ≡ some b)
bind_some none f b h = cc
bind_some (some a) f b h = (a, refl, h)

pub ensure-some {ℓ} :
    {A : Type ℓ} (test : Bool) (a b : A) → ensure test a ≡ some b → (test ≡ true) × (a ≡ b)
ensure-some true a b h = (refl, cc)
ensure-some false a b h = cc

pub normalize_payload_valid :
    (payload : FactPayload)
    → validate_payload payload ≡ true
    → normalize_payload payload ≡ some payload
unfolding normalize_payload
normalize_payload_valid payload h =
    ap (λ n. ensure (validate_payload n) n) (normal_payload_valid payload h)
    ∙ ap (λ b. ensure b payload) h

-- A normal form is valid.
pub normalize_payload_result :
    (payload normalized : FactPayload)
    → normalize_payload payload ≡ some normalized
    → (validate_payload normalized ≡ true) × (normal_payload payload ≡ normalized)
unfolding normalize_payload
normalize_payload_result payload normalized h =
    let (v, e) =
      ensure-some (validate_payload (normal_payload payload)) (normal_payload payload) normalized
        h in
    (ap validate_payload (sym e) ∙ v, e)

-- A payload that decode_payload accepts is valid, and its canonical encoding is the bytes that were
-- read: no other bytes are accepted for it.
pub encode_payload-decode_payload :
    (limits : FactCodecLimits) (bytes : List ℕ) (payload : FactPayload)
    → decode_payload limits bytes ≡ some payload
    → (validate_payload payload ≡ true) × (encode_payload payload ≡ some bytes)
unfolding decode_payload encode_payload
encode_payload-decode_payload limits bytes payload h =
    let (accepted, h0, h1) =
      bind_some (ensure (leb (length bytes) limits.max_fact_bytes) bytes) _ payload h in
    let (decoded, h2, h3) = bind_some (read_payload limits accepted) _ payload h1 in
    let (normalized, h4, h5) = bind_some (normalize_payload decoded) _ payload h3 in
    let (canonical, h6, h7) = bind_some (encode_normalized_payload normalized) _ payload h5 in
    let (same, e) = ensure-some (equal_bytes canonical bytes) normalized payload h7 in
    let (valid, _) = normalize_payload_result decoded normalized h4 in
    let f =
      ap encode_normalized_payload (sym e) ∙ h6 ∙ ap some (equal_bytes→≡ canonical bytes same) in
    let v = ap validate_payload (sym e) ∙ valid in (v, rw (normalize_payload_valid payload v) f)

pub normalize_evidence_valid :
    (e : Evidence) → validate_evidence e ≡ true → normalize_evidence e ≡ some e
unfolding normalize_evidence
normalize_evidence_valid e h =
    ap (λ n. ensure (validate_evidence n) n) (normal_evidence_valid e h) ∙ ap (λ b. ensure b e) h

fact_kind_code_pos : (k : FactKind) → 1 ≤ fact_kind_code k
unfolding fact_kind_code
fact_kind_code_pos code_target_kind = omega arith
fact_kind_code_pos branch_reachability_kind = omega arith
fact_kind_code_pos memory_access_kind = omega arith
fact_kind_code_pos memory_value_kind = omega arith
fact_kind_code_pos string_candidate_kind = omega arith
fact_kind_code_pos function_candidate_kind = omega arith
fact_kind_code_pos function_trait_kind = omega arith
fact_kind_code_pos code_region_kind = omega arith
fact_kind_code_pos dispatch_map_kind = omega arith
fact_kind_code_pos cfg_candidate_kind = omega arith
fact_kind_code_pos function_outcome_kind = omega arith
fact_kind_code_pos register_value_kind = omega arith
fact_kind_code_pos call_observation_kind = omega arith

read_payload_written :
    (limits : FactCodecLimits) (payload : FactPayload)
    → PayloadFits limits payload
    → read_payload limits
        (payload_magic ++ write_be 2 1 (fact_kind_code (fact_kind payload) ∷ payload_body payload))
      ≡ some payload
unfolding read_payload
read_payload_written limits payload fits =
    let kind = fact_kind payload in
    let body = payload_body payload in
    rw
      (
        read_magic-append payload_magic (write_be 2 1 (fact_kind_code kind ∷ body)),
        read_version-write_be (fact_kind_code kind ∷ body),
        read_enum-code fact_kind_list 1 (fact_kind_code kind) kind body (fact_kind_code_pos kind)
            (fact_kind_list_lem kind),
        decode_payload_body-payload_body limits payload fits,
      )
      refl

written_payload :
    (payload : FactPayload) (bytes : List ℕ)
    → encode_normalized_payload payload ≡ some bytes
    → (payload_magic ++ write_be 2 1 (fact_kind_code (fact_kind payload) ∷ payload_body payload))
      ≡ bytes
unfolding encode_normalized_payload
written_payload payload bytes h = (ensure-some (payload_writable payload) _ bytes h).1

pub decode_payload_valid :
    (limits : FactCodecLimits) (payload : FactPayload) (bytes : List ℕ)
    → validate_payload payload ≡ true
    → encode_normalized_payload payload ≡ some bytes
    → PayloadFits limits payload
    → length bytes ≤ limits.max_fact_bytes
    → decode_payload limits bytes ≡ some payload
unfolding decode_payload
decode_payload_valid limits payload bytes valid h fits le =
    let size : leb (length bytes) limits.max_fact_bytes ≡ true = ground arith in
    let r =
      ap (read_payload limits) (sym (written_payload payload bytes h))
      ∙ read_payload_written limits payload fits in
    rw (size, r, normalize_payload_valid payload valid, h, equal_bytes_self bytes) refl

-- What encode_payload writes for a payload is decoded to its normal form, when the numbers of the
-- normal form are in the range of their types and its lengths and the bytes are within the limits.
pub decode_payload-encode_payload :
    (limits : FactCodecLimits) (payload : FactPayload) (bytes : List ℕ)
    → encode_payload payload ≡ some bytes
    → PayloadFits limits (normal_payload payload)
    → length bytes ≤ limits.max_fact_bytes
    → decode_payload limits bytes ≡ some (normal_payload payload)
unfolding encode_payload
decode_payload-encode_payload limits payload bytes h fits le =
    let (normalized, h0, h1) = bind_some (normalize_payload payload) _ bytes h in
    let (valid, e) = normalize_payload_result payload normalized h0 in
    subst (λ p. decode_payload limits bytes ≡ some p) (sym e)
      (decode_payload_valid limits normalized bytes valid h1 (subst (PayloadFits limits) e fits) le)

-- Payloads with the same canonical bytes have the same normal form, when it fits some limits that
-- the bytes keep: the bytes identify a fact.
pub encode_payload-injective :
    (limits : FactCodecLimits) (left right : FactPayload) (bytes : List ℕ)
    → encode_payload left ≡ some bytes
    → encode_payload right ≡ some bytes
    → PayloadFits limits (normal_payload left)
    → PayloadFits limits (normal_payload right)
    → length bytes ≤ limits.max_fact_bytes
    → normal_payload left ≡ normal_payload right
encode_payload-injective limits left right bytes l r fl fr le =
    let e = decode_payload-encode_payload limits left bytes l fl le in
    let f = decode_payload-encode_payload limits right bytes r fr le in some_injective (sym e ∙ f)
