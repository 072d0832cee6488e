-- ===== src/Runtime/Wide.antt =====
-- UTF-16 and UTF-32 (read_u16, read_u32, decode_utf16_exact and decode_utf32_exact of
-- src/runtime_enrich_core.cpp). Joining disjoint bit fields is addition.
use viy.Base.{
  ℕ, zero, suc, ◌+◌, ◌-◌, ◌*◌, ◌%◌, Bool, not, ◌||◌, Option, none, some, List, [], ◌∷◌, length, ltb,
  ◌==◌, if◌then◌else◌,
}
use viy.Runtime.Utf8.{between, scalar_is_text, ◌>>=◌}

unfoldable pub read_u16 : ℕ → ℕ → Bool → ℕ
read_u16 p0 p1 big_endian = if big_endian then p0 * 0x100 + p1 else p0 + p1 * 0x100

unfoldable pub read_u32 : ℕ → ℕ → ℕ → ℕ → Bool → ℕ
read_u32 p0 p1 p2 p3 big_endian =
    if big_endian
    then p0 * 0x1000000 + p1 * 0x10000 + p2 * 0x100 + p3
    else p0 + p1 * 0x100 + p2 * 0x10000 + p3 * 0x1000000

-- The second half of a surrogate pair.
unfoldable pub surrogate_pair : Bool → ℕ → List ℕ → Option (ℕ × List ℕ)
unfolding read_u16
surrogate_pair big_endian first [] = none
surrogate_pair big_endian first (p0 ∷ []) = none
surrogate_pair big_endian first (p0 ∷ p1 ∷ rest) =
    let second = read_u16 p0 p1 big_endian in
    if ltb second 0xdc00 || ltb 0xdfff second
    then none
    else some (0x10000 + ((first - 0xd800) * 0x400 + (second - 0xdc00)), rest)

unfoldable pub utf16_char : Bool → ℕ → List ℕ → Option (ℕ × List ℕ)
unfolding surrogate_pair
utf16_char big_endian first rest =
    if between 0xd800 0xdbff first
    then surrogate_pair big_endian first rest
    else if between 0xdc00 0xdfff first
    then none
    else some (first, rest)

-- The loop; the number of bytes is fuel enough.
unfoldable pub utf16_loop : ℕ → Bool → List ℕ → Option (List ℕ)
unfolding utf16_char read_u16 scalar_is_text
utf16_loop fuel big_endian [] = some []
utf16_loop fuel big_endian (p0 ∷ []) = none
utf16_loop zero big_endian (p0 ∷ p1 ∷ rest) = none
utf16_loop (suc fuel) big_endian (p0 ∷ p1 ∷ rest) = do
  (cp, after) ← utf16_char big_endian (read_u16 p0 p1 big_endian) rest
  cps ← utf16_loop fuel big_endian after
  if scalar_is_text cp then some (cp ∷ cps) else none

unfoldable pub enough_characters : ℕ → List ℕ → Option (List ℕ)
enough_characters minimum_characters result =
    if ltb (length result) minimum_characters then none else some result

unfoldable pub decode_utf16_exact : List ℕ → Bool → ℕ → Option (List ℕ)
unfolding utf16_loop enough_characters
decode_utf16_exact bytes big_endian minimum_characters =
    if length bytes == 0 || not (length bytes % 2 == 0)
    then none
    else (utf16_loop (length bytes) big_endian bytes >>= enough_characters minimum_characters)

unfoldable pub utf32_loop : Bool → List ℕ → Option (List ℕ)
unfolding read_u32 scalar_is_text
utf32_loop big_endian [] = some []
utf32_loop big_endian (p0 ∷ []) = none
utf32_loop big_endian (p0 ∷ p1 ∷ []) = none
utf32_loop big_endian (p0 ∷ p1 ∷ p2 ∷ []) = none
utf32_loop big_endian (p0 ∷ p1 ∷ p2 ∷ p3 ∷ rest) = do
  cps ← utf32_loop big_endian rest
  if scalar_is_text (read_u32 p0 p1 p2 p3 big_endian)
      then some (read_u32 p0 p1 p2 p3 big_endian ∷ cps)
      else none

unfoldable pub decode_utf32_exact : List ℕ → Bool → ℕ → Option (List ℕ)
unfolding utf32_loop enough_characters
decode_utf32_exact bytes big_endian minimum_characters =
    if length bytes == 0 || not (length bytes % 4 == 0)
    then none
    else (utf32_loop big_endian bytes >>= enough_characters minimum_characters)
