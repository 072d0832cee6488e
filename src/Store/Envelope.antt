-- ===== src/Store/Envelope.antt =====
-- The serialized form of the ledger (EvidenceStore::serialize and deserialize of
-- src/evidence_store.cpp): a header, the facts in canonical order, and the SHA-256 of all that.
use viy.Base.{
  ℕ, zero, suc, ◌-◌, Bool, true, false, ◌&&◌, Option, none, some, List, [], ◌∷◌, ◌++◌, length, take,
  drop, leb, ◌==◌, if◌then◌else◌,
}
use viy.Base.Lex.{equal_bytes, less_bytes}
use viy.Facts.Schema.{FactPayload, AnalysisFact}
use viy.Facts.Bytes.{◌>>=◌, FactCodecLimits, write_be, read_magic, read_u16, read_u32, read_u64}
use viy.Facts.Validate.{max_u32, max_u64}
use viy.Facts.Codec.{ensure, encode_payload, encode_analysis_fact, decode_analysis_fact}
use viy.Facts.Sha256.{sha256_bytes}
use viy.Store.Defs.{
  EvidenceStore, AddDisposition, inserted_record, added_observation, duplicate_observation,
  rejected_invalid, evidence_key, flattened_facts, add,
}

pub record StoreCodecLimits : Type 0 where
  pub max_blob_bytes : ℕ
  pub max_observations : ℕ
  pub fact_limits : FactCodecLimits

-- "VIYEVDB" and a zero
abbrev pub store_magic : List ℕ
store_magic = 86 ∷ 73 ∷ 89 ∷ 69 ∷ 86 ∷ 68 ∷ 66 ∷ 0 ∷ []

-- The length-delimited facts.
unfoldable pub write_facts : List AnalysisFact → Option (List ℕ)
write_facts [] = some []
write_facts (fact ∷ facts) = do
  encoded ← encode_analysis_fact fact
  fits ← ensure (leb (length encoded) max_u32) encoded
  rest ← write_facts facts
  some (write_be 4 (length fits) (fits ++ rest))

unfoldable pub write_header : ℕ → List ℕ → List ℕ
unfolding write_be
write_header count body =
    store_magic ++ write_be 2 1 (write_be 2 0 (write_be 4 1 (write_be 8 count body)))

unfoldable pub serialize : EvidenceStore → Option (List ℕ)
serialize store = do
  facts ← ensure (leb (length (flattened_facts store)) max_u64) (flattened_facts store)
  body ← write_facts facts
  some (write_header (length facts) body ++ sha256_bytes (write_header (length facts) body))

-- The key of payload_less, for an invalid payload one behind all others, without the error text.
unfoldable pub payload_key : FactPayload → List ℕ
payload_key payload = elim (encode_payload payload) [ none ↦ 255 ∷ [] | some bytes ↦ bytes ]

unfoldable pub analysis_fact_less : AnalysisFact → AnalysisFact → Bool
analysis_fact_less lhs rhs =
    if less_bytes (payload_key lhs.payload) (payload_key rhs.payload)
    then true
    else if less_bytes (payload_key rhs.payload) (payload_key lhs.payload)
    then false
    else less_bytes (evidence_key lhs.evidence) (evidence_key rhs.evidence)

abbrev pub follows : Option AnalysisFact → AnalysisFact → Bool
follows none fact = true
follows (some previous) fact = analysis_fact_less previous fact

abbrev pub is_added : AddDisposition → Bool
is_added inserted_record = true
is_added added_observation = true
is_added duplicate_observation = false
is_added rejected_invalid = false

-- One fact of the envelope.
unfoldable pub read_fact : FactCodecLimits → List ℕ → Option (AnalysisFact × List ℕ)
read_fact limits bytes = do
  (size, rest) ← read_u32 bytes
  allowed ← ensure (leb size limits.max_fact_bytes) size
  there ← ensure (leb allowed (length rest)) allowed
  fact ← decode_analysis_fact limits (take there rest)
  some (fact, drop there rest)

unfoldable pub read_facts :
    FactCodecLimits
    → ℕ
    → Option AnalysisFact
    → EvidenceStore
    → List ℕ
    → Option (EvidenceStore × List ℕ)
read_facts limits zero previous decoded bytes = some (decoded, bytes)
read_facts limits (suc count) previous decoded bytes = do
  (fact, rest) ← read_fact limits bytes
  next ← ensure (follows previous fact) fact
  added ← ensure (is_added (add next decoded).0) (add next decoded).1
  read_facts limits count (some next) added rest

-- The part before the digest, when the digest is that part's.
unfoldable pub check_digest : StoreCodecLimits → List ℕ → Option (List ℕ)
check_digest limits blob =
    ensure
      (leb (length blob) limits.max_blob_bytes
        && leb 56 (length blob)
        && equal_bytes (sha256_bytes (take (length blob - 32) blob)) (drop (length blob - 32) blob))
      (take (length blob - 32) blob)

-- The number of facts and what stands behind it.
unfoldable pub read_header : StoreCodecLimits → List ℕ → Option (ℕ × List ℕ)
read_header limits envelope = do
  b1 ← read_magic store_magic envelope
  (major, b2) ← read_u16 b1
  (minor, b3) ← read_u16 b2
  (flags, b4) ← read_u32 b3
  (count, b5) ← read_u64 b4
  ensure (major == 1 && minor == 0 && flags == 1 && leb count limits.max_observations) (count, b5)

unfoldable pub deserialize : StoreCodecLimits → List ℕ → Option EvidenceStore
deserialize limits blob = do
  envelope ← check_digest limits blob
  (count, body) ← read_header limits envelope
  (decoded, rest) ← read_facts limits.fact_limits count none [] body
  complete ← ensure (length rest == 0) decoded
  canonical ← serialize complete
  ensure (equal_bytes canonical blob) complete
