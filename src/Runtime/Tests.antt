-- ===== src/Runtime/Tests.antt =====
-- Runs on small inputs (src/runtime_enrich_core.cpp).
use viy.Base.{
  ℕ, ◌≡◌, refl, true, false, not, ◌&&◌, none, some, List, [], ◌∷◌, length, arith, ◌==◌,
  if◌then◌else◌, All,
}
use viy.Runtime.Utf8.{scalar_is_text, ascii, utf8, all_ascii, decode_utf8_exact}
use viy.Runtime.Utf8RoundTrip.{utf8_text, decode_utf8_exact-utf8_text}
use viy.Runtime.Wide.{decode_utf16_exact}
use viy.Runtime.Utf16RoundTrip.{utf16_text, decode_utf16_exact-utf16_text}
use viy.Runtime.Candidates.{StringScanOptions, best_nul_candidate}
use viy.Runtime.Pascal.{unique_pascal_candidate}
use viy.Runtime.Pointers.{AddrRange, is_pointer, mapped_ranges, in_ranges}
use viy.Runtime.PointersFound.{is_pointer-mapped_ranges}
use viy.Runtime.Writes.{collect_write_groups, image, heap, RunKey, MemoryBytes}
use viy.Runtime.Conflict.{range_has_conflict}
use viy.Runtime.ConflictFree.{Agrees, range_has_conflict-Agrees}
use viy.Runtime.Scan.{overlaps_pointer, scan_observation, pointer_offsets}
use viy.Runtime.Overlap.{any_meets, overlaps_pointer-pointer_offsets}
use viy.Runtime.ScanBounds.{Strings, scan_observation-Strings}

-- "é√😀!"
abbrev accents : List ℕ
accents = 0xe9 ∷ 0x221a ∷ 0x1f600 ∷ 0x21 ∷ []

decode_utf8_exact-utf8_text_example :
    decode_utf8_exact (utf8_text accents) 4
    ≡ some (accents, if all_ascii accents then ascii else utf8)
unfolding scalar_is_text
decode_utf8_exact-utf8_text_example =
    decode_utf8_exact-utf8_text accents 4 (refl, (refl, (refl, (refl, tt)))) (omega arith)

overlong : decode_utf8_exact (0xe0 ∷ 0x80 ∷ 0x80 ∷ []) 0 ≡ none
unfolding decode_utf8_exact
overlong = refl

decode_utf16_exact-utf16_text_example :
    decode_utf16_exact (utf16_text true accents) true 4 ≡ some accents
unfolding scalar_is_text
decode_utf16_exact-utf16_text_example =
    decode_utf16_exact-utf16_text accents true 4 (refl, (refl, (refl, (refl, tt)))) (omega arith)
      (omega arith)

-- A high surrogate at the end
lone_surrogate : decode_utf16_exact (0x41 ∷ 0x00 ∷ 0x3d ∷ 0xd8 ∷ []) false 0 ≡ none
unfolding decode_utf16_exact
lone_surrogate = refl

abbrev ranges : List AddrRange
ranges = (0x3000, 0x4000) ∷ (0x1000, 0x2000) ∷ (0x5000, 0x5000) ∷ (0x1800, 0x2800) ∷ []

is_pointer-mapped_ranges_example :
    is_pointer (mapped_ranges ranges) 0x2100 ≡ (not (0x2100 == 0) && in_ranges ranges 0x2100)
is_pointer-mapped_ranges_example = is_pointer-mapped_ranges ranges 0x2100

merged : mapped_ranges ranges ≡ ((0x1000, 0x2800) ∷ (0x3000, 0x4000) ∷ [])
unfolding mapped_ranges
merged = refl

abbrev first_run : RunKey
first_run = record { run_id = 1; seed = 7 }

abbrev second_run : RunKey
second_run = record { run_id = 2; seed = 9 }

-- "text" twice, each with its terminator, in front of a pointer
abbrev written : MemoryBytes
written = record {
  addr = 0x8006;
  bytes =
      0x74 ∷ 0x65 ∷ 0x78 ∷ 0x74 ∷ 0 ∷ 0x74 ∷ 0x65 ∷ 0x78 ∷ 0x74 ∷ 0 ∷ 0x34 ∷ 0x10 ∷ 0 ∷ 0 ∷ 0 ∷ 0
      ∷ 0 ∷ 0 ∷ [];
  scope = image;
  run = first_run;
}

abbrev again : MemoryBytes
again = record { addr = 0x8006; bytes = 0x74 ∷ 0x65 ∷ []; scope = image; run = second_run }

abbrev twin : MemoryBytes
twin = record { addr = 0x8006; bytes = 0x74 ∷ 0x65 ∷ []; scope = image; run = first_run }

abbrev elsewhere : MemoryBytes
elsewhere = record { addr = 0x8006; bytes = 0x78 ∷ []; scope = heap; run = second_run }

abbrev options : StringScanOptions
options = record {
  image_big_endian = false;
  allow_unicode = false;
  allow_length_prefixed = true;
  minimum_characters = 4;
  max_candidate_bytes = 4096;
  max_candidates_per_write = 64;
  pointer_width = 8;
  pointer_ranges = ranges;
}

scan_observation-Strings_example :
    Strings
      (pointer_offsets options (mapped_ranges ranges) written)
      options.pointer_width
      written
      0
      (scan_observation options (mapped_ranges ranges) written)
scan_observation-Strings_example = scan_observation-Strings options (mapped_ranges ranges) written

overlaps_pointer-pointer_offsets_example :
    overlaps_pointer
      (pointer_offsets options (mapped_ranges ranges) written)
      options.pointer_width
      5
      6
    ≡ any_meets options.pointer_width 5 6 (pointer_offsets options (mapped_ranges ranges) written)
overlaps_pointer-pointer_offsets_example =
    overlaps_pointer-pointer_offsets options (mapped_ranges ranges) written 5 6

pointer_at : pointer_offsets options (mapped_ranges ranges) written ≡ 10 ∷ []
unfolding pointer_offsets mapped_ranges
pointer_at = refl

two_strings : length (scan_observation options (mapped_ranges ranges) written) ≡ 2
unfolding scan_observation mapped_ranges best_nul_candidate unique_pascal_candidate
    decode_utf8_exact
two_strings = refl

range_has_conflict-Agrees_example :
    All (Agrees 0x8005 (0x41 ∷ 0x74 ∷ 0x65 ∷ []) image) (written ∷ again ∷ elsewhere ∷ [])
unfolding range_has_conflict
range_has_conflict-Agrees_example =
    range_has_conflict-Agrees (written ∷ again ∷ elsewhere ∷ []) 0x8005 (0x41 ∷ 0x74 ∷ 0x65 ∷ [])
      image refl

one_corroborated : (collect_write_groups (written ∷ again ∷ twin ∷ [])).corroborated_groups ≡ 1
unfolding collect_write_groups
one_corroborated = refl
