-- ===== src/Store/Reread.antt =====
-- A saved ledger is read back (EvidenceStore::serialize and deserialize of src/evidence_store.cpp).
use viy.Base.{
  ℕ, ◌+◌, ◌-◌, ◌^◌, ◌≤◌, ◌<◌, ◌≡◌, refl, ap, ◌∙◌, true, some, List, [], ◌++◌, arith, length,
  length-append, leb,
}
use viy.Base.Lex.{equal_bytes_self}
use viy.Facts.Bytes.{FactCodecLimits, write_be}
use viy.Facts.BytesRead.{
  read_u16-write_be, read_u32-write_be, read_u64-write_be, read_magic-append, take-length-append,
  drop-length-append,
}
use viy.Facts.Schema.{AnalysisFact}
use viy.Facts.Codec.{encode_analysis_fact}
use viy.Facts.FactRead.{decode_analysis_fact-encode_analysis_fact}
use viy.Facts.Sha256.{
  ShaState, sha256_bytes, state_bytes, finish_digest, update_loop, initial_state,
}
use viy.Store.Envelope.{
  StoreCodecLimits, store_magic, write_header, read_fact, check_digest, read_header,
}
use viy.Store.Ordered.{Saved, keyed_fact-Saved}

-- The digest has 32 bytes.
length-finish_digest :
    (n : ℕ) (state : ShaState) (block : List ℕ) → length (finish_digest n (state, block)) ≡ 32
unfolding finish_digest state_bytes write_be
length-finish_digest n state block = refl

length-sha256_bytes : (bytes : List ℕ) → length (sha256_bytes bytes) ≡ 32
unfolding sha256_bytes
length-sha256_bytes bytes =
    let last = update_loop (length bytes) bytes (initial_state, []) in
    length-finish_digest (length bytes) last.0 last.1

-- The envelope of what serialize writes.
pub check_digest-append :
    (limits : StoreCodecLimits) (envelope : List ℕ)
    → 24 ≤ length envelope
    → length (envelope ++ sha256_bytes envelope) ≤ limits.max_blob_bytes
    → check_digest limits (envelope ++ sha256_bytes envelope) ≡ some envelope
unfolding check_digest
check_digest-append limits envelope long le =
    let digest = sha256_bytes envelope in
    let total : length (envelope ++ digest) ≡ length envelope + 32 =
      length-append envelope digest
      ∙ ap (λ n. length envelope + n) (length-sha256_bytes envelope) in
    let cut : length (envelope ++ digest) - 32 ≡ length envelope = omega arith in
    let small : leb (length (envelope ++ digest)) limits.max_blob_bytes ≡ true = ground arith in
    let large : leb 56 (length (envelope ++ digest)) ≡ true = ground arith in
    rw
      (
        small,
        large,
        cut,
        take-length-append envelope digest,
        drop-length-append envelope digest,
        equal_bytes_self digest,
      )
      refl

pub read_header-write_header :
    (limits : StoreCodecLimits) (count : ℕ) (body : List ℕ)
    → count < 2 ^ 64
    → count ≤ limits.max_observations
    → read_header limits (write_header count body) ≡ some (count, body)
unfolding read_header write_header
read_header-write_header limits count body small le =
    let allowed : leb count limits.max_observations ≡ true = ground arith in
    rw
      (
        read_magic-append store_magic
            (write_be 2 1 (write_be 2 0 (write_be 4 1 (write_be 8 count body)))),
        read_u16-write_be 1 (write_be 2 0 (write_be 4 1 (write_be 8 count body))) (omega arith),
        read_u16-write_be 0 (write_be 4 1 (write_be 8 count body)) (omega arith),
        read_u32-write_be 1 (write_be 8 count body) (omega arith),
        read_u64-write_be count body small,
        allowed,
      )
      refl

pub length-write_header : (count : ℕ) (body : List ℕ) → 24 ≤ length (write_header count body)
unfolding write_header write_be
length-write_header count body = omega arith

-- The bytes of a fact, if it has any, are within the limit.
abbrev pub FactSize : FactCodecLimits → AnalysisFact → Type 0
FactSize limits fact =
    (bytes : List ℕ) → encode_analysis_fact fact ≡ some bytes → length bytes ≤ limits.max_fact_bytes

pub read_fact-write_be :
    (limits : FactCodecLimits) (f : AnalysisFact) (bytes rest : List ℕ)
    → Saved limits f
    → encode_analysis_fact f ≡ some bytes
    → length bytes < 2 ^ 32
    → length bytes ≤ limits.max_fact_bytes
    → read_fact limits (write_be 4 (length bytes) (bytes ++ rest)) ≡ some (f, rest)
unfolding read_fact Saved
read_fact-write_be limits f bytes rest saved e small le =
    let allowed : leb (length bytes) limits.max_fact_bytes ≡ true = ground arith in
    let there : leb (length bytes) (length (bytes ++ rest)) ≡ true =
      ground (arith, length-append bytes rest) in
    rw
      (
        read_u32-write_be (length bytes) (bytes ++ rest) small,
        allowed,
        there,
        take-length-append bytes rest,
        drop-length-append bytes rest,
        decode_analysis_fact-encode_analysis_fact limits f f bytes
            (keyed_fact-Saved limits f saved).0 e (saved.2) (saved.3) le,
      )
      refl
