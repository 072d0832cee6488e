-- ===== src/Store/RoundTrip.antt =====
-- The facts of a saved ledger are added one after the other, and give the ledger
-- (EvidenceStore::serialize and deserialize of src/evidence_store.cpp).
use viy.Base.{
  ℕ, ◌^◌, ◌≤◌, ◌<◌, ◌≡◌, refl, sym, ap, ◌∙◌, subst, Bool, true, false, ◌&&◌, ◌||◌, Option, none,
  some, List, [], ◌∷◌, ◌++◌, All, arith, length, leb, option_rule,
}
use viy.Base.Lex.{equal_bytes, equal_bytes_self}
use viy.Base.Keyed.{find, has, Sorted}
use viy.Facts.Bytes.{FactCodecLimits, write_be}
use viy.Facts.Validate.{max_u32, max_u64}
use viy.Facts.Schema.{AnalysisFact}
use viy.Facts.Codec.{ensure, encode_analysis_fact}
use viy.Facts.Canonical.{bind_some, ensure-some, some_injective}
use viy.Facts.Sha256.{sha256_bytes}
use viy.Store.Defs.{
  EvidenceStore, AddDisposition, MergeReport, count_disposition, entry_key, evidence_key, add_at,
  add, add_all, empty_report, flattened_facts, contains,
}
use viy.Store.Envelope.{
  StoreCodecLimits, write_facts, write_header, serialize, payload_key, analysis_fact_less, follows,
  is_added, read_fact, read_facts, check_digest, deserialize,
}
use viy.Store.Contents.{is_fact, contains-add, found_has}
use viy.Store.Determined.{ledger_determined}
use viy.Store.Sequence.{any_fact, add_all-IsLedger, contains-add_all}
use viy.Store.Merge.{flattened_facts-Storable, any_fact-flattened_facts}
use viy.Store.Invariant.{IsLedger}
use viy.Store.KeyOrder.{add-Sorted}
use viy.Store.Ordered.{Saved, Ordered, keyed_fact-Saved, less_differ, flattened_facts-Ordered}
use viy.Store.Reread.{
  check_digest-append, read_header-write_header, length-write_header, FactSize, read_fact-write_be,
}

-- The store has no observation of this fact.
abbrev New : EvidenceStore → AnalysisFact → Type 0
New store f = contains (payload_key f.payload) (evidence_key f.evidence) store ≡ false

is_added-add_at :
    (key : List ℕ) (n : AnalysisFact) (store : EvidenceStore)
    → contains key (evidence_key n.evidence) store ≡ false
    → is_added (add_at key n store).0 ≡ true
unfolding add_at contains
is_added-add_at key n store h =
    option_rule (λ (r : AddDisposition × EvidenceStore). is_added r.0 ≡ true)
      (find entry_key key store) _ _ (λ absent. refl)
      (λ entry e.
        option_rule (λ (r : AddDisposition × EvidenceStore). is_added r.0 ≡ true)
          (find evidence_key (evidence_key n.evidence) entry.value.observations) _ _ (λ new. refl)
          (λ o g.
            let there = found_has (evidence_key n.evidence) entry.value.observations o g in
            let same : contains key (evidence_key n.evidence) store
                ≡ has evidence_key (evidence_key n.evidence) entry.value.observations =
              rw (contains, e) refl in
            cc))

is_added-New :
    (limits : FactCodecLimits) (f : AnalysisFact) (store : EvidenceStore)
    → Saved limits f
    → New store f
    → is_added (add f store).0 ≡ true
unfolding add
is_added-New limits f store saved new =
    rw ((keyed_fact-Saved limits f saved).1, add)
      (is_added-add_at (payload_key f.payload) f store new)

is_fact-Saved :
    (limits : FactCodecLimits) (pk ek : List ℕ) (f : AnalysisFact)
    → Saved limits f
    → is_fact pk ek f
      ≡ (equal_bytes (payload_key f.payload) pk && equal_bytes (evidence_key f.evidence) ek)
unfolding is_fact
is_fact-Saved limits pk ek f saved = rw ((keyed_fact-Saved limits f saved).1, is_fact) refl

-- The facts behind a fact are still new after it is added.
All-New :
    (limits : FactCodecLimits) (f : AnalysisFact) (facts : List AnalysisFact)
    (store : EvidenceStore)
    → Saved limits f
    → Sorted entry_key store
    → All (λ g. analysis_fact_less f g ≡ true) facts
    → All (New store) facts
    → All (New (add f store).1) facts
All-New limits f [] store saved s less new = tt
All-New limits f (g ∷ facts) store saved s (l, less) (n, new) = (
  contains-add (payload_key g.payload) (evidence_key g.evidence) f store s
      ∙ ap (λ b. b || contains (payload_key g.payload) (evidence_key g.evidence) store)
          (is_fact-Saved limits (payload_key g.payload) (evidence_key g.evidence) f saved
            ∙ less_differ f g l)
      ∙ n,
  All-New limits f facts store saved s less new,
)

read_facts-write_facts :
    (limits : FactCodecLimits) (facts : List AnalysisFact) (body : List ℕ)
    (previous : Option AnalysisFact) (report : MergeReport) (decoded : EvidenceStore)
    → write_facts facts ≡ some body
    → All (Saved limits) facts
    → Ordered facts
    → All (FactSize limits) facts
    → All (λ f. follows previous f ≡ true) facts
    → Sorted entry_key decoded
    → All (New decoded) facts
    → read_facts limits (length facts) previous decoded body
      ≡ some ((add_all facts (report, decoded)).1, [])
unfolding write_facts read_facts Ordered add_all
read_facts-write_facts limits [] body previous report decoded h saved o sizes f s new =
    ap (λ b. some (decoded, b)) (sym (some_injective h))
read_facts-write_facts limits (f ∷ facts) body previous report decoded h (saved, all_saved)
      (less, o) (size, sizes) (after, _) s (new, all_new) =
    let (encoded, e, h1) = bind_some (encode_analysis_fact f) _ body h in
    let (fits, e2, h2) = bind_some (ensure (leb (length encoded) max_u32) encoded) _ body h1 in
    let (rest, e3, h3) = bind_some (write_facts facts) _ body h2 in
    let (small, same) = ensure-some (leb (length encoded) max_u32) encoded fits e2 in
    let short : length encoded < 2 ^ 32 = ground arith in
    let read : read_fact limits body ≡ some (f, rest) =
      ap (read_fact limits)
        (sym (some_injective h3) ∙ ap (λ b. write_be 4 (length b) (b ++ rest)) (sym same))
      ∙ read_fact-write_be limits f encoded rest saved e short (size encoded e) in
    let added = is_added-New limits f decoded saved new in
    let later =
      read_facts-write_facts limits facts rest (some f) (count_disposition (add f decoded).0 report)
        (add f decoded).1 e3 all_saved o sizes less (add-Sorted f decoded s)
        (All-New limits f facts decoded saved s less all_new) in
    rw (read, after, added) later

All-New_empty : (facts : List AnalysisFact) → All (New []) facts
unfolding contains
All-New_empty [] = tt
All-New_empty (f ∷ facts) = (refl, All-New_empty facts)

All-follows-none : (facts : List AnalysisFact) → All (λ f. follows none f ≡ true) facts
All-follows-none [] = tt
All-follows-none (f ∷ facts) = (refl, All-follows-none facts)

-- The facts of a ledger, added to an empty one, give the ledger.
flattened_restored :
    (limits : FactCodecLimits) (store : EvidenceStore)
    → IsLedger limits store
    → (add_all (flattened_facts store) (empty_report, [])).1 ≡ store
unfolding IsLedger contains
flattened_restored limits store h =
    let storable = flattened_facts-Storable limits store h in
    ledger_determined limits (add_all (flattened_facts store) (empty_report, [])).1 store
      (add_all-IsLedger limits (flattened_facts store) empty_report [] storable (tt, tt)) h
      λ pk ek.
        contains-add_all limits pk ek (flattened_facts store) empty_report [] storable (tt, tt)
        ∙ or_false (any_fact pk ek (flattened_facts store))
        ∙ any_fact-flattened_facts limits pk ek store h
  where
    or_false : (b : Bool) → (b || false) ≡ b
    or_false b = ground arith

-- What serialize writes.
serialize_parts :
    (store : EvidenceStore) (blob : List ℕ)
    → serialize store ≡ some blob
    → (length (flattened_facts store) < 2 ^ 64)
      × (body : List ℕ) × (write_facts (flattened_facts store) ≡ some body)
      × ((write_header (length (flattened_facts store)) body
            ++ sha256_bytes (write_header (length (flattened_facts store)) body))
          ≡ blob)
unfolding serialize
serialize_parts store blob h =
    let facts = flattened_facts store in
    let (checked, e, h1) = bind_some (ensure (leb (length facts) max_u64) facts) _ blob h in
    let (body, e2, h2) = bind_some (write_facts checked) _ blob h1 in
    let (small, same) = ensure-some (leb (length facts) max_u64) facts checked e in
    (
      ground arith,
      body,
      ap write_facts same ∙ e2,
      ap
            (λ (fs : List AnalysisFact).
              write_header (length fs) body ++ sha256_bytes (write_header (length fs) body))
            same
          ∙ some_injective h2,
    )

-- A ledger that satisfies the invariant and is saved is restored from its blob, when the blob, the
-- number of its observations and the bytes of each fact are within the limits.
pub deserialize-serialize :
    (limits : StoreCodecLimits) (store : EvidenceStore) (blob : List ℕ)
    → IsLedger limits.fact_limits store
    → serialize store ≡ some blob
    → length blob ≤ limits.max_blob_bytes
    → length (flattened_facts store) ≤ limits.max_observations
    → All (FactSize limits.fact_limits) (flattened_facts store)
    → deserialize limits blob ≡ some store
unfolding deserialize
deserialize-serialize limits store blob ledger saved le count sizes =
    let (small, body, written, form) = serialize_parts store blob saved in
    let (ordered, all_saved) = flattened_facts-Ordered limits.fact_limits store ledger in
    let facts = flattened_facts store in
    let envelope = write_header (length facts) body in
    let digest : check_digest limits blob ≡ some envelope =
      ap (check_digest limits) (sym form)
      ∙ check_digest-append limits envelope (length-write_header (length facts) body)
          (subst (λ b. length b ≤ limits.max_blob_bytes) (sym form) le) in
    let read : read_facts limits.fact_limits (length facts) none [] body ≡ some (store, []) =
      read_facts-write_facts limits.fact_limits facts body none empty_report [] written all_saved
        ordered sizes (All-follows-none facts) tt (All-New_empty facts)
      ∙ ap (λ (s : EvidenceStore). some (s, []))
          (flattened_restored limits.fact_limits store ledger) in
    rw
      (
        digest,
        read_header-write_header limits (length facts) body small count,
        read,
        saved,
        equal_bytes_self blob,
      )
      refl
