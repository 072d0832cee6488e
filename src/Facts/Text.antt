-- ===== src/Facts/Text.antt =====
-- Is a byte string text in its encoding (valid_utf8, valid_utf16, valid_utf32 and
-- string_bytes_match_encoding of src/analysis_facts.cpp). A mask or a shift by k bits is `%` or `/`
-- by 2 ^ k.
use viy.Base.{
  ℕ, zero, suc, ◌+◌, ◌*◌, ◌/◌, ◌%◌, Bool, true, false, not, ◌&&◌, ◌||◌, Option, none, some, List,
  [], ◌∷◌, length, ltb, leb, ◌==◌, if◌then◌else◌,
}
use viy.Facts.Enums.{
  StringEncoding, bytes_encoding, ascii_encoding, utf8_encoding, utf16_le_encoding,
  utf16_be_encoding, utf32_le_encoding, utf32_be_encoding,
}
use viy.Facts.Schema.{StringCandidateFact}

abbrev pub in_range : ℕ → ℕ → ℕ → Bool
in_range lo hi x = leb lo x && leb x hi

-- The first byte's bits, the number of bytes that follow, and the least code point.
unfoldable pub utf8_lead : ℕ → Option (ℕ × ℕ × ℕ)
utf8_lead first =
    if leb first 0x7f
    then some (first, 0, 0)
    else if in_range 0xc2 0xdf first
    then some (first % 0x20, 1, 0x80)
    else if in_range 0xe0 0xef first
    then some (first % 0x10, 2, 0x800)
    else if in_range 0xf0 0xf4 first
    then some (first % 0x08, 3, 0x10000)
    else none

-- The code point and the bytes behind it.
unfoldable pub utf8_rest : ℕ → ℕ → List ℕ → Option (ℕ × List ℕ)
utf8_rest zero codepoint bytes = some (codepoint, bytes)
utf8_rest (suc count) codepoint [] = none
utf8_rest (suc count) codepoint (b ∷ bytes) = elim (b / 0x40 == 2) [
  | true ↦ utf8_rest count (codepoint * 0x40 + b % 0x40) bytes
  | false ↦ none
]

unfoldable pub is_codepoint : ℕ → Bool
is_codepoint codepoint = not (ltb 0x10ffff codepoint || in_range 0xd800 0xdfff codepoint)

-- One character: the bytes behind it, when it is well formed.
unfoldable pub utf8_step : ℕ → List ℕ → Option (List ℕ)
unfolding utf8_lead utf8_rest is_codepoint
utf8_step first bytes = elim (utf8_lead first) [
  | none ↦ none
  | some (bits, count, minimum) ↦ elim (utf8_rest count bits bytes) [
    | none ↦ none
    | some (codepoint, rest) ↦
        if ltb codepoint minimum || not (is_codepoint codepoint) then none else some rest
  ]
]

-- The loop. Each character takes a byte, so the number of bytes is fuel enough.
unfoldable pub utf8_valid_loop : ℕ → List ℕ → Bool
unfolding utf8_step
utf8_valid_loop fuel [] = true
utf8_valid_loop zero (b ∷ bytes) = false
utf8_valid_loop (suc fuel) (b ∷ bytes) = elim (utf8_step b bytes) [
  | none ↦ false
  | some rest ↦ utf8_valid_loop fuel rest
]

unfoldable pub valid_utf8 : List ℕ → Bool
unfolding utf8_valid_loop
valid_utf8 bytes = utf8_valid_loop (length bytes) bytes

unfoldable pub code_unit16 : ℕ → ℕ → Bool → ℕ
code_unit16 b0 b1 little_endian = if little_endian then b0 + b1 * 0x100 else b0 * 0x100 + b1

-- A surrogate pair takes two units; the state tells whether a low surrogate is due.
unfoldable pub utf16_valid_loop : Bool → Bool → List ℕ → Bool
unfolding code_unit16
utf16_valid_loop little_endian due [] = not due
utf16_valid_loop little_endian due (b0 ∷ []) = false
utf16_valid_loop little_endian due (b0 ∷ b1 ∷ bytes) =
    let unit = code_unit16 b0 b1 little_endian in
    let high = in_range 0xd800 0xdbff unit in
    let rest = utf16_valid_loop little_endian (not due && high) bytes in
    (if due then in_range 0xdc00 0xdfff unit else high || not (in_range 0xdc00 0xdfff unit)) && rest

unfoldable pub valid_utf16 : List ℕ → Bool → Bool
unfolding utf16_valid_loop
valid_utf16 bytes little_endian =
    length bytes % 2 == 0 && utf16_valid_loop little_endian false bytes

unfoldable pub code_unit32 : ℕ → ℕ → ℕ → ℕ → Bool → ℕ
code_unit32 b0 b1 b2 b3 little_endian =
    if little_endian
    then b0 + b1 * 0x100 + b2 * 0x10000 + b3 * 0x1000000
    else b0 * 0x1000000 + b1 * 0x10000 + b2 * 0x100 + b3

unfoldable pub utf32_valid_loop : Bool → List ℕ → Bool
unfolding code_unit32 is_codepoint
utf32_valid_loop little_endian [] = true
utf32_valid_loop little_endian (b0 ∷ []) = false
utf32_valid_loop little_endian (b0 ∷ b1 ∷ []) = false
utf32_valid_loop little_endian (b0 ∷ b1 ∷ b2 ∷ []) = false
utf32_valid_loop little_endian (b0 ∷ b1 ∷ b2 ∷ b3 ∷ bytes) =
    is_codepoint (code_unit32 b0 b1 b2 b3 little_endian) && utf32_valid_loop little_endian bytes

unfoldable pub valid_utf32 : List ℕ → Bool → Bool
unfolding utf32_valid_loop
valid_utf32 bytes little_endian = length bytes % 4 == 0 && utf32_valid_loop little_endian bytes

unfoldable pub all_ascii : List ℕ → Bool
all_ascii [] = true
all_ascii (b ∷ bytes) = leb b 0x7f && all_ascii bytes

unfoldable pub bytes_match : StringEncoding → List ℕ → Bool
unfolding all_ascii valid_utf8 valid_utf16 valid_utf32
bytes_match bytes_encoding bytes = true
bytes_match ascii_encoding bytes = all_ascii bytes
bytes_match utf8_encoding bytes = valid_utf8 bytes
bytes_match utf16_le_encoding bytes = valid_utf16 bytes true
bytes_match utf16_be_encoding bytes = valid_utf16 bytes false
bytes_match utf32_le_encoding bytes = valid_utf32 bytes true
bytes_match utf32_be_encoding bytes = valid_utf32 bytes false

unfoldable pub string_bytes_match_encoding : StringCandidateFact → Bool
unfolding bytes_match
string_bytes_match_encoding fact = bytes_match fact.encoding fact.bytes

unfoldable pub string_code_unit_size : StringEncoding → ℕ
string_code_unit_size bytes_encoding = 1
string_code_unit_size ascii_encoding = 1
string_code_unit_size utf8_encoding = 1
string_code_unit_size utf16_le_encoding = 2
string_code_unit_size utf16_be_encoding = 2
string_code_unit_size utf32_le_encoding = 4
string_code_unit_size utf32_be_encoding = 4
