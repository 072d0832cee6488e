-- ===== src/Facts/EvidenceRead.antt =====
-- Evidence is read back from its canonical bytes (src/analysis_facts.cpp).
use viy.Base.{
  ℕ, ◌≤◌, ◌≡◌, refl, sym, ap, ◌∙◌, true, ◌&&◌, some, List, [], ◌∷◌, ◌++◌, arith, length, All,
  get_elem?, leb,
}
use viy.Base.Lex.{equal_bytes_self}
use viy.Facts.Enums.{ProofKind, proof_kind_code, proof_kind_list}
use viy.Facts.Codes.{proof_kind_list_lem}
use viy.Facts.Schema.{Evidence, EvidenceScope}
use viy.Facts.Bytes.{
  FactCodecLimits, write_be, write_blob, write_optional, read_u64, read_enum, writable,
}
use viy.Facts.BytesRead.{
  IfSome, read_u16-write_be, read_u64-write_be, read_sized-write_blob, read_count-write_be,
  read_enum-code, read_magic-append, read_version-write_be,
}
use viy.Facts.ItemRead.{read_optional_u64}
use viy.Facts.Decode.{read_items}
use viy.Facts.Validate.{max_u32}
use viy.Facts.Codec.{
  evidence_magic, write_addresses, write_scope, evidence_body, encode_normalized_evidence,
  validate_evidence, read_scope, read_evidence, decode_evidence,
}
use viy.Facts.Fits.{IsU64, Counted, EvidenceFits}
use viy.Facts.Canonical.{ensure-some}

read_addresses :
    (addresses tail : List ℕ)
    → All IsU64 addresses
    → read_items read_u64 (length addresses) (write_addresses addresses tail)
      ≡ some (addresses, tail)
unfolding read_items write_addresses
read_addresses [] tail h = refl
read_addresses (a ∷ addresses) tail (h, hs) =
    rw (read_u64-write_be a (write_addresses addresses tail) h, read_addresses addresses tail hs)
      refl

read_scope-write_scope :
    (s : EvidenceScope) (tail : List ℕ)
    → IfSome IsU64 s.run_id
    → IfSome IsU64 s.seed
    → IfSome IsU64 s.function_start
    → IfSome IsU64 s.function_end
    → IsU64 s.generation
    → read_scope (write_scope s tail) ≡ some (s, tail)
unfolding read_scope write_scope
read_scope-write_scope s tail r d b e g =
    let t1 = write_be 8 s.generation tail in
    let t2 = write_optional (write_be 8) s.function_end t1 in
    let t3 = write_optional (write_be 8) s.function_start t2 in
    let t4 = write_optional (write_be 8) s.seed t3 in
    rw
      (
        read_optional_u64 s.run_id t4 r,
        read_optional_u64 s.seed t3 d,
        read_optional_u64 s.function_start t2 b,
        read_optional_u64 s.function_end t1 e,
        read_u64-write_be s.generation tail g,
      )
      refl

read_proof :
    (k : ProofKind) (tail : List ℕ)
    → read_enum proof_kind_list 0 (proof_kind_code k ∷ tail) ≡ some (k, tail)
read_proof k tail =
    read_enum-code proof_kind_list 0 (proof_kind_code k) k tail (omega arith)
      (ap (get_elem? proof_kind_list) (omega arith) ∙ proof_kind_list_lem k)

read_evidence_written :
    (limits : FactCodecLimits) (e : Evidence)
    → EvidenceFits limits e
    → read_evidence limits (evidence_magic ++ write_be 2 1 (evidence_body e)) ≡ some e
unfolding read_evidence evidence_body EvidenceFits Counted
read_evidence_written limits e (p, m, c, s, (bits, le, a), d) =
    let max = limits.max_string_bytes in
    let t1 = write_blob e.detail [] in
    let t2 = write_addresses e.support_addresses t1 in
    let t3 = write_be 4 (length e.support_addresses) t2 in
    let t4 = write_scope e.scope t3 in
    let t5 = write_be 2 e.confidence t4 in
    let t6 = write_blob e.method (proof_kind_code e.proof ∷ t5) in
    rw
      (
        read_magic-append evidence_magic (write_be 2 1 (write_blob e.producer t6)),
        read_version-write_be (write_blob e.producer t6),
        read_sized-write_blob max e.producer t6 p.0 p.1,
        read_sized-write_blob max e.method (proof_kind_code e.proof ∷ t5) m.0 m.1,
        read_proof e.proof t5,
        read_u16-write_be e.confidence t4 c,
        read_scope-write_scope e.scope t3 s.0 s.1 s.2 s.3 s.4,
        read_count-write_be limits (length e.support_addresses) t2 bits le,
        read_addresses e.support_addresses t1 a,
        read_sized-write_blob max e.detail [] d.0 d.1,
      )
      refl

written_evidence :
    (e : Evidence) (bytes : List ℕ)
    → encode_normalized_evidence e ≡ some bytes
    → (evidence_magic ++ write_be 2 1 (evidence_body e)) ≡ bytes
unfolding encode_normalized_evidence
written_evidence e bytes h =
    (ensure-some
      (writable e.producer
        && writable e.method
        && leb (length e.support_addresses) max_u32
        && writable e.detail)
      _ bytes h).1

-- Evidence that is its own normal form is decoded from its canonical bytes, when the numbers are in
-- the range of their types and the lengths within the limits.
pub decode_evidence-encode_normalized_evidence :
    (limits : FactCodecLimits) (e : Evidence) (bytes : List ℕ)
    → validate_evidence e ≡ true
    → encode_normalized_evidence e ≡ some bytes
    → EvidenceFits limits e
    → length bytes ≤ limits.max_fact_bytes
    → decode_evidence limits bytes ≡ some e
unfolding decode_evidence
decode_evidence-encode_normalized_evidence limits e bytes valid h fits le =
    let size : leb (length bytes) limits.max_fact_bytes ≡ true = ground arith in
    let r =
      ap (read_evidence limits) (sym (written_evidence e bytes h))
      ∙ read_evidence_written limits e fits in
    rw (size, r, valid, h, equal_bytes_self bytes) refl
