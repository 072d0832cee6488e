-- ===== src/Runtime/Scan.antt =====
-- The scan of every write for strings (collect_string_groups of src/runtime_enrich_core.cpp).
use viy.Base.{
  ℕ, zero, suc, ◌+◌, ◌-◌, ◌*◌, ◌%◌, ◌^◌, Bool, true, false, not, ◌&&◌, ◌||◌, Option, none, some,
  List, [], ◌∷◌, length, take, drop, min, ltb, leb, ◌==◌, if◌then◌else◌,
}
use viy.Runtime.Utf8.{◌>>=◌, RuntimeEncoding, ascii, utf8, utf16_le, utf16_be, utf32_le, utf32_be}
use viy.Runtime.Candidates.{
  StringLayout, nul_terminated, pascal8, pascal16, pascal32, DecodedString, StringScanOptions,
  best_nul_candidate,
}
use viy.Runtime.Pascal.{unique_pascal_candidate}
use viy.Runtime.Pointers.{AddrRange, is_pointer, mapped_ranges}
use viy.Base.Lex.{equal_bytes}
use viy.Runtime.Writes.{DataScope, RunKey, MemoryBytes, same_scope, insert_run, checked_end}

unfoldable pub encoding_id : RuntimeEncoding → ℕ
encoding_id ascii = 0
encoding_id utf8 = 1
encoding_id utf16_le = 2
encoding_id utf16_be = 3
encoding_id utf32_le = 4
encoding_id utf32_be = 5

unfoldable pub layout_id : StringLayout → ℕ
layout_id nul_terminated = 0
layout_id pascal8 = 1
layout_id pascal16 = 2
layout_id pascal32 = 3

pub record StringKey : Type 0 where
  pub addr : ℕ
  pub scope : DataScope
  pub encoding : RuntimeEncoding
  pub layout : StringLayout
  pub raw : List ℕ

pub record StringGroup : Type 0 where
  pub key : StringKey
  pub codepoints : List ℕ
  pub runs : List RunKey

pub record StringCollection : Type 0 where
  pub groups : List StringGroup
  pub observations : ℕ

unfoldable pub same_string_key : StringKey → StringKey → Bool
unfolding same_scope encoding_id layout_id
same_string_key a b =
    same_scope a.scope b.scope
    && a.addr == b.addr
    && encoding_id a.encoding == encoding_id b.encoding
    && layout_id a.layout == layout_id b.layout
    && equal_bytes a.raw b.raw

unfoldable pub same_candidate : DecodedString → DecodedString → Bool
unfolding encoding_id layout_id
same_candidate a b =
    encoding_id a.encoding == encoding_id b.encoding
    && layout_id a.layout == layout_id b.layout
    && equal_bytes a.raw b.raw
    && equal_bytes a.codepoints b.codepoints

-- A word read from its first byte on, and from its last.
unfoldable pub big_word : ℕ → List ℕ → ℕ
big_word value [] = value
big_word value (b ∷ bytes) = big_word (value * 0x100 + b) bytes

unfoldable pub little_word : List ℕ → ℕ
little_word [] = 0
little_word (b ∷ bytes) = little_word bytes * 0x100 + b

unfoldable pub word : Bool → List ℕ → ℕ
unfolding big_word little_word
word big_endian bytes = if big_endian then big_word 0 bytes else little_word bytes

-- The loop over the aligned words; every word has a byte, so the number of bytes is fuel enough.
unfoldable pub word_offsets : ℕ → Bool → ℕ → List AddrRange → List ℕ → ℕ → List ℕ
unfolding is_pointer word
word_offsets zero big_endian width mapped bytes off = []
word_offsets (suc fuel) big_endian width mapped bytes off =
    let rest = word_offsets fuel big_endian width mapped bytes (off + width) in
    if ltb off (length bytes) && leb width (length bytes - off)
    then (if is_pointer mapped (word big_endian (take width (drop off bytes)))
        then off ∷ rest
        else rest)
    else []

abbrev pub no_ranges : List AddrRange → Bool
no_ranges [] = true
no_ranges (r ∷ ranges) = false

unfoldable pub pointer_offsets : StringScanOptions → List AddrRange → MemoryBytes → List ℕ
unfolding word_offsets
pointer_offsets options mapped observation =
    let width = options.pointer_width in
    if not (no_ranges mapped) && (width == 4 || width == 8)
    then word_offsets (length observation.bytes) options.image_big_endian width mapped
        observation.bytes ((width - observation.addr % width) % width)
    else []

-- lower_bound: the first offset at `start` or above, and the one before it.
unfoldable pub offset_from : ℕ → List ℕ → Option ℕ
offset_from start [] = none
offset_from start (off ∷ offsets) = if ltb off start then offset_from start offsets else some off

unfoldable pub offset_before : ℕ → List ℕ → Option ℕ
offset_before start [] = none
offset_before start (off ∷ offsets) =
    if ltb off start
    then elim (offset_before start offsets) [ none ↦ some off | some o ↦ some o ]
    else none

abbrev pub within : (ℕ → ℕ) → ℕ → Option ℕ → Bool
within distance limit none = false
within distance limit (some off) = ltb (distance off) limit

unfoldable pub overlaps_pointer : List ℕ → ℕ → ℕ → ℕ → Bool
unfolding offset_from offset_before
overlaps_pointer offsets width start size =
    within (λ off. off - start) size (offset_from start offsets)
    || within (λ off. start - off) width (offset_before start offsets)

-- Two layouts that disagree select nothing.
unfoldable pub selected : Option DecodedString → Option DecodedString → Option DecodedString
unfolding same_candidate
selected (some nul) (some pascal) = if same_candidate nul pascal then some nul else none
selected (some nul) none = some nul
selected none (some pascal) = some pascal
selected none none = none

-- The tests of a selected candidate: it fits, its addresses do not overflow, and it overlaps no
-- pointer.
unfoldable pub accepted : List ℕ → ℕ → MemoryBytes → ℕ → DecodedString → Option DecodedString
unfolding overlaps_pointer checked_end
accepted offsets width observation offset candidate =
    if candidate.raw_size == 0
      || ltb (length observation.bytes - offset) candidate.raw_size
      || ltb ((2 ^ 64 - 1) - observation.addr) offset
    then none
    else elim (checked_end (observation.addr + offset) candidate.raw_size) [
      | none ↦ none
      | some candidate_end ↦
          if overlaps_pointer offsets width offset candidate.raw_size then none else some candidate
    ]

-- What the loop accepts at an offset.
unfoldable pub candidate_at : StringScanOptions → List ℕ → MemoryBytes → ℕ → Option DecodedString
unfolding selected accepted overlaps_pointer
candidate_at options offsets observation offset =
    let probe =
      take (min options.max_candidate_bytes (length observation.bytes - offset))
        (drop offset observation.bytes) in
    if overlaps_pointer offsets options.pointer_width offset 1
    then none
    else (selected (best_nul_candidate probe options) (unique_pascal_candidate probe options)
        >>= accepted offsets options.pointer_width observation offset)

unfoldable pub add_string : StringKey → List ℕ → RunKey → List StringGroup → List StringGroup
unfolding same_string_key insert_run
add_string key codepoints run [] =
    record { key = key; codepoints = codepoints; runs = run ∷ [] } ∷ []
add_string key codepoints run (g ∷ groups) =
    let rest = add_string key codepoints run groups in
    if same_string_key g.key key
    then record { key = g.key; codepoints = codepoints; runs = insert_run run g.runs } ∷ groups
    else g ∷ rest

unfoldable pub add_candidate : MemoryBytes → ℕ → DecodedString → StringCollection → StringCollection
unfolding add_string
add_candidate observation offset candidate result = record {
  groups =
      add_string
        record {
          addr = observation.addr + offset;
          scope = observation.scope;
          encoding = candidate.encoding;
          layout = candidate.layout;
          raw = candidate.raw;
        }
        candidate.codepoints observation.run result.groups;
  observations = suc result.observations;
}

-- The loop over one observation: what is accepted at which offset. A step passes a byte at least,
-- so the number of bytes is fuel enough.
unfoldable pub scan :
    ℕ → StringScanOptions → List ℕ → MemoryBytes → ℕ → ℕ → List (ℕ × DecodedString)
unfolding candidate_at
scan zero options offsets observation offset count = []
scan (suc fuel) options offsets observation offset count =
    elim (ltb offset (length observation.bytes) && ltb count options.max_candidates_per_write) [
      | false ↦ []
      | true ↦ elim (candidate_at options offsets observation offset) [
        | none ↦ scan fuel options offsets observation (suc offset) count
        | some c ↦
            (offset, c) ∷ scan fuel options offsets observation (offset + c.raw_size) (suc count)
      ]
    ]

unfoldable pub add_candidates :
    MemoryBytes → List (ℕ × DecodedString) → StringCollection → StringCollection
unfolding add_candidate
add_candidates observation [] result = result
add_candidates observation ((offset, c) ∷ candidates) result =
    add_candidates observation candidates (add_candidate observation offset c result)

unfoldable pub scan_observation :
    StringScanOptions → List AddrRange → MemoryBytes → List (ℕ × DecodedString)
unfolding scan pointer_offsets
scan_observation options mapped observation =
    scan (length observation.bytes) options (pointer_offsets options mapped observation) observation
      0 0

unfoldable pub scan_all :
    StringScanOptions → List AddrRange → List MemoryBytes → StringCollection → StringCollection
unfolding scan_observation add_candidates
scan_all options mapped [] result = result
scan_all options mapped (o ∷ observations) result =
    scan_all options mapped observations
      (add_candidates o (scan_observation options mapped o) result)

unfoldable pub collect_string_groups : List MemoryBytes → StringScanOptions → StringCollection
unfolding scan_all mapped_ranges
collect_string_groups observations options =
    let empty : StringCollection = record { groups = []; observations = 0 } in
    if options.minimum_characters == 0
      || options.max_candidate_bytes == 0
      || options.max_candidates_per_write == 0
    then empty
    else scan_all options (mapped_ranges options.pointer_ranges) observations empty
