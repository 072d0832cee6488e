-- ===== src/Store/Tests.antt =====
-- Small ledgers (src/evidence_store.cpp).
use viy.Base.{ℕ, List, some, ◌≡◌, refl, ap, ◌||◌, [], ◌∷◌, ◌≤◌, length, sym, subst, All, arith, ◌∙◌}
use viy.Facts.Canonical.{some_injective}
use viy.Store.Reread.{FactSize}
use viy.Store.RoundTrip.{deserialize-serialize}
use viy.Facts.Validate.{validate_payload, normal_payload}
use viy.Facts.Encode.{encode_normalized_payload}
use viy.Facts.Codec.{
  normalize_payload, normalize_evidence, normal_evidence, validate_evidence, encode_payload,
  encode_evidence, validate_fact, normalize_fact, decode_analysis_fact, split_fact, decode_payload,
  read_payload, decode_evidence, read_evidence, read_scope, encode_normalized_evidence,
  encode_analysis_fact, join_fact,
}
use viy.Facts.Samples.{evidence, limits, sorted_bytes, fact, fact_bytes}
use viy.Store.Defs.{
  evidence_key, flattened_facts, add_at, keyed_fact, add, merge, contains, empty_report, add_all,
}
use viy.Store.Invariant.{IsLedger, add-IsLedger}
use viy.Store.Determined.{ledger_determined}
use viy.Store.Sequence.{any_fact, contains-add_all}
use viy.Store.Merge.{merge-IsLedger, merge_comm, merge_assoc}
use viy.Store.Latest.{note_generation, retain, retained, retained_entries, latest_generation_view}
use viy.Store.Newest.{latest_facts}
use viy.Store.LatestView.{flattened_facts-latest_generation_view}
use viy.Facts.Bytes.{
  read_magic, read_version, read_be, read_enum, read_sized, read_optional, read_count,
}
use viy.Facts.Decode.{read_items, decode_payload_body}
use viy.Facts.Sha256.{sha256_bytes}
use viy.Store.Envelope.{
  StoreCodecLimits, serialize, write_facts, write_header, read_fact, read_facts, check_digest,
  read_header, deserialize,
}
use viy.Store.Samples.{
  two_runs, later_fact, later_key, earlier_Storable, later_Storable, empty_IsLedger, earlier_store,
  later_store, earlier_IsLedger, later_IsLedger,
}

add-IsLedger_example : IsLedger limits (add later_fact earlier_store).1
add-IsLedger_example = add-IsLedger limits later_fact earlier_store later_Storable earlier_IsLedger

contains-add_all_example :
    contains sorted_bytes later_key (add_all (later_fact ∷ fact ∷ []) (empty_report, [])).1 ≡ (
      any_fact sorted_bytes later_key (later_fact ∷ fact ∷ [])
      || contains sorted_bytes later_key [])
contains-add_all_example =
    contains-add_all limits sorted_bytes later_key (later_fact ∷ fact ∷ []) empty_report []
      (later_Storable, (earlier_Storable, tt)) empty_IsLedger

merge_comm_example : (merge earlier_store later_store).1 ≡ (merge later_store earlier_store).1
merge_comm_example = merge_comm limits earlier_store later_store earlier_IsLedger later_IsLedger

merge_assoc_example :
    (merge (merge earlier_store later_store).1 earlier_store).1
    ≡ (merge earlier_store (merge later_store earlier_store).1).1
merge_assoc_example =
    merge_assoc limits earlier_store later_store earlier_store earlier_IsLedger later_IsLedger
      earlier_IsLedger

ledger_determined_example :
    (merge earlier_store later_store).1 ≡ (merge later_store earlier_store).1
ledger_determined_example =
    ledger_determined limits (merge earlier_store later_store).1 (merge later_store earlier_store).1
      (merge-IsLedger limits earlier_store later_store earlier_IsLedger later_IsLedger)
      (merge-IsLedger limits later_store earlier_store later_IsLedger earlier_IsLedger)
      (λ pk ek.
        ap (contains pk ek)
          (merge_comm limits earlier_store later_store earlier_IsLedger later_IsLedger))

flattened_facts-latest_generation_view_example :
    flattened_facts (latest_generation_view two_runs)
    ≡ latest_facts (flattened_facts two_runs) (flattened_facts two_runs)
flattened_facts-latest_generation_view_example = flattened_facts-latest_generation_view two_runs

-- The earlier generation of the scan is left out.
latest_of_two :
    flattened_facts (retained_entries (note_generation evidence.producer 0x1000 4 []) earlier_store)
    ≡ []
unfolding add add_at keyed_fact normalize_fact normalize_payload normalize_evidence encode_payload
    validate_fact normal_evidence validate_evidence validate_payload normal_payload
    encode_normalized_payload flattened_facts retained_entries retained retain note_generation
latest_of_two = refl

abbrev store_limits : StoreCodecLimits
store_limits = record {
  max_blob_bytes = 67108864;
  max_observations = 1000000;
  fact_limits = limits;
}

abbrev saved : List ℕ
saved =
    86 ∷ 73 ∷ 89 ∷ 69 ∷ 86 ∷ 68 ∷ 66 ∷ 0 ∷ 0 ∷ 1 ∷ 0 ∷ 0 ∷ 0 ∷ 0 ∷ 0 ∷ 1 ∷ 0 ∷ 0 ∷ 0 ∷ 0 ∷ 0 ∷ 0 ∷ 0
    ∷ 1 ∷ 0 ∷ 0 ∷ 0 ∷ 152 ∷ 86 ∷ 73 ∷ 89 ∷ 70 ∷ 0 ∷ 1 ∷ 0 ∷ 0 ∷ 0 ∷ 55 ∷ 86 ∷ 73 ∷ 89 ∷ 80 ∷ 0 ∷ 1
    ∷ 9 ∷ 0 ∷ 0 ∷ 0 ∷ 0 ∷ 0 ∷ 0 ∷ 9 ∷ 0 ∷ 0 ∷ 0 ∷ 0 ∷ 2 ∷ 1 ∷ 0 ∷ 0 ∷ 0 ∷ 0 ∷ 0 ∷ 0 ∷ 0 ∷ 1 ∷ 0 ∷ 0
    ∷ 0 ∷ 0 ∷ 0 ∷ 0 ∷ 16 ∷ 0 ∷ 1 ∷ 0 ∷ 0 ∷ 0 ∷ 0 ∷ 0 ∷ 0 ∷ 0 ∷ 2 ∷ 0 ∷ 0 ∷ 0 ∷ 0 ∷ 0 ∷ 0 ∷ 32 ∷ 0
    ∷ 0 ∷ 1 ∷ 0 ∷ 0 ∷ 0 ∷ 83 ∷ 86 ∷ 73 ∷ 89 ∷ 69 ∷ 0 ∷ 1 ∷ 0 ∷ 0 ∷ 0 ∷ 3 ∷ 114 ∷ 97 ∷ 120 ∷ 0 ∷ 0
    ∷ 0 ∷ 3 ∷ 114 ∷ 117 ∷ 110 ∷ 2 ∷ 35 ∷ 40 ∷ 1 ∷ 0 ∷ 0 ∷ 0 ∷ 0 ∷ 0 ∷ 0 ∷ 0 ∷ 7 ∷ 0 ∷ 1 ∷ 0 ∷ 0 ∷ 0
    ∷ 0 ∷ 0 ∷ 0 ∷ 16 ∷ 0 ∷ 1 ∷ 0 ∷ 0 ∷ 0 ∷ 0 ∷ 0 ∷ 0 ∷ 17 ∷ 0 ∷ 0 ∷ 0 ∷ 0 ∷ 0 ∷ 0 ∷ 0 ∷ 0 ∷ 3 ∷ 0
    ∷ 0 ∷ 0 ∷ 2 ∷ 0 ∷ 0 ∷ 0 ∷ 0 ∷ 0 ∷ 0 ∷ 16 ∷ 4 ∷ 0 ∷ 0 ∷ 0 ∷ 0 ∷ 0 ∷ 0 ∷ 16 ∷ 8 ∷ 0 ∷ 0 ∷ 0 ∷ 0
    ∷ 90 ∷ 221 ∷ 126 ∷ 98 ∷ 216 ∷ 104 ∷ 163 ∷ 118 ∷ 231 ∷ 161 ∷ 66 ∷ 204 ∷ 96 ∷ 97 ∷ 192 ∷ 108 ∷ 197
    ∷ 103 ∷ 109 ∷ 236 ∷ 86 ∷ 4 ∷ 160 ∷ 68 ∷ 140 ∷ 199 ∷ 218 ∷ 2 ∷ 165 ∷ 246 ∷ 221 ∷ 63 ∷ []

saved_restored : deserialize store_limits saved ≡ some earlier_store
unfolding deserialize check_digest read_header read_facts read_fact sha256_bytes read_magic
    read_version read_be read_enum read_sized read_optional read_count read_items
    decode_payload_body decode_analysis_fact split_fact decode_payload read_payload decode_evidence
    read_evidence read_scope validate_evidence validate_payload validate_fact normal_payload
    normal_evidence normalize_payload normalize_evidence normalize_fact encode_normalized_payload
    encode_normalized_evidence encode_analysis_fact join_fact encode_payload encode_evidence
    evidence_key add add_at keyed_fact serialize write_facts write_header flattened_facts
saved_restored = refl

earlier_saved : serialize earlier_store ≡ some saved
unfolding serialize write_facts write_header flattened_facts add add_at keyed_fact evidence_key
    encode_analysis_fact normalize_fact validate_fact normalize_evidence normal_evidence join_fact
    normalize_payload validate_payload normal_payload encode_normalized_payload encode_payload
    encode_evidence validate_evidence encode_normalized_evidence sha256_bytes
earlier_saved = refl

earlier_facts : flattened_facts earlier_store ≡ fact ∷ []
unfolding flattened_facts add add_at keyed_fact evidence_key encode_evidence normalize_fact
    validate_fact normalize_evidence normal_evidence normalize_payload validate_payload
    normal_payload encode_normalized_payload encode_payload validate_evidence
    encode_normalized_evidence
earlier_facts = refl

fact_encoded : encode_analysis_fact fact ≡ some fact_bytes
unfolding encode_analysis_fact normalize_fact validate_fact normalize_evidence normal_evidence
    join_fact normalize_payload validate_payload normal_payload encode_normalized_payload
    validate_evidence encode_normalized_evidence
fact_encoded = refl

fact_size : FactSize limits fact
fact_size bytes e =
    subst (λ b. length b ≤ limits.max_fact_bytes) (some_injective (sym fact_encoded ∙ e))
      (omega arith)

deserialize-serialize_example : deserialize store_limits saved ≡ some earlier_store
deserialize-serialize_example =
    deserialize-serialize store_limits earlier_store saved earlier_IsLedger earlier_saved
      (omega arith) (subst (λ fs. length fs ≤ 1000000) (sym earlier_facts) (omega arith))
      (subst (All (FactSize limits)) (sym earlier_facts) (fact_size, tt))
