-- ===== src/Runtime/Candidates.antt =====
-- Strings that may start at a byte (DecodedString, StringScanOptions, best_nul_candidate and
-- unique_pascal_candidate of src/runtime_enrich_core.{hpp,cpp}). A pointer and a size are the list
-- of the bytes that they give.
use viy.Base.{
  ℕ, ◌+◌, ◌-◌, ◌*◌, ◌/◌, ◌^◌, Bool, ◌&&◌, ◌||◌, Option, none, some, List, [], ◌∷◌, ◌++◌, length,
  take, ltb, ◌==◌, if◌then◌else◌,
}
use viy.Runtime.Utf8.{
  ◌>>=◌, RuntimeEncoding, utf16_le, utf16_be, utf32_le, utf32_be, decode_utf8_exact,
}
use viy.Runtime.Wide.{read_u16, read_u32, decode_utf16_exact, decode_utf32_exact}

pub data StringLayout : Type 0 where
  nul_terminated pascal8 pascal16 pascal32 : StringLayout

unfoldable pub layout_prefix_size : StringLayout → ℕ
layout_prefix_size nul_terminated = 0
layout_prefix_size pascal8 = 1
layout_prefix_size pascal16 = 2
layout_prefix_size pascal32 = 4

pub record DecodedString : Type 0 where
  pub encoding : RuntimeEncoding
  pub layout : StringLayout
  pub raw_size : ℕ
  pub codepoints : List ℕ
  pub raw : List ℕ

pub record StringScanOptions : Type 0 where
  pub image_big_endian : Bool
  pub allow_unicode : Bool
  pub allow_length_prefixed : Bool
  pub minimum_characters : ℕ
  pub max_candidate_bytes : ℕ
  pub max_candidates_per_write : ℕ
  pub pointer_width : ℕ
  pub pointer_ranges : List (ℕ × ℕ)

unfoldable pub assign_candidate :
    List ℕ → ℕ → RuntimeEncoding → StringLayout → List ℕ → DecodedString
assign_candidate start raw_size encoding layout codepoints = record {
  encoding = encoding;
  layout = layout;
  raw_size = raw_size;
  codepoints = codepoints;
  raw = take raw_size start;
}

-- The bytes before the first zero byte.
unfoldable pub until_zero : List ℕ → Option (List ℕ)
until_zero [] = none
until_zero (b ∷ bytes) =
    if b == 0 then some [] else (until_zero bytes >>= λ payload. some (b ∷ payload))

unfoldable pub decode_nul_utf8 : List ℕ → ℕ → Option DecodedString
unfolding until_zero assign_candidate
decode_nul_utf8 bytes minimum_characters = do
  payload ← until_zero bytes
  (codepoints, encoding) ← decode_utf8_exact payload minimum_characters
  some (assign_candidate bytes (length payload + 1) encoding nul_terminated codepoints)

-- The bytes before the first zero unit of 2 bytes, and of 4.
unfoldable pub until_zero16 : Bool → List ℕ → Option (List ℕ)
unfolding read_u16
until_zero16 big_endian [] = none
until_zero16 big_endian (p0 ∷ []) = none
until_zero16 big_endian (p0 ∷ p1 ∷ rest) =
    if read_u16 p0 p1 big_endian == 0
    then some []
    else (until_zero16 big_endian rest >>= λ payload. some (p0 ∷ p1 ∷ payload))

unfoldable pub until_zero32 : Bool → List ℕ → Option (List ℕ)
unfolding read_u32
until_zero32 big_endian [] = none
until_zero32 big_endian (p0 ∷ []) = none
until_zero32 big_endian (p0 ∷ p1 ∷ []) = none
until_zero32 big_endian (p0 ∷ p1 ∷ p2 ∷ []) = none
until_zero32 big_endian (p0 ∷ p1 ∷ p2 ∷ p3 ∷ rest) =
    if read_u32 p0 p1 p2 p3 big_endian == 0
    then some []
    else (until_zero32 big_endian rest >>= λ payload. some (p0 ∷ p1 ∷ p2 ∷ p3 ∷ payload))

unfoldable pub decode_nul_utf16 : List ℕ → Bool → ℕ → Option DecodedString
unfolding until_zero16 assign_candidate
decode_nul_utf16 bytes big_endian minimum_characters = do
  payload ← until_zero16 big_endian bytes
  codepoints ← decode_utf16_exact payload big_endian minimum_characters
  some (
      assign_candidate bytes (length payload + 2) (if big_endian then utf16_be else utf16_le)
        nul_terminated codepoints)

unfoldable pub decode_nul_utf32 : List ℕ → Bool → ℕ → Option DecodedString
unfolding until_zero32 assign_candidate
decode_nul_utf32 bytes big_endian minimum_characters = do
  payload ← until_zero32 big_endian bytes
  codepoints ← decode_utf32_exact payload big_endian minimum_characters
  some (
      assign_candidate bytes (length payload + 4) (if big_endian then utf32_be else utf32_le)
        nul_terminated codepoints)

-- The order of best_nul_candidate: first the characters, then the bytes.
unfoldable pub explains_less : DecodedString → DecodedString → Bool
explains_less a b =
    ltb (length a.codepoints) (length b.codepoints)
    || length a.codepoints == length b.codepoints && ltb a.raw_size b.raw_size

-- std::max_element: the first of the greatest
unfoldable pub best_of : DecodedString → List DecodedString → DecodedString
unfolding explains_less
best_of best [] = best
best_of best (c ∷ candidates) = best_of (if explains_less best c then c else best) candidates

abbrev pub found : Option DecodedString → List DecodedString
found none = []
found (some c) = c ∷ []

unfoldable pub nul_candidates : List ℕ → StringScanOptions → List DecodedString
unfolding decode_nul_utf8 decode_nul_utf16 decode_nul_utf32
nul_candidates bytes options =
    (if options.allow_unicode
      then found (decode_nul_utf32 bytes options.image_big_endian options.minimum_characters)
        ++ found (decode_nul_utf16 bytes options.image_big_endian options.minimum_characters)
      else [])
    ++ found (decode_nul_utf8 bytes options.minimum_characters)

abbrev pub best_candidate : List DecodedString → Option DecodedString
best_candidate [] = none
best_candidate (c ∷ candidates) = some (best_of c candidates)

unfoldable pub best_nul_candidate : List ℕ → StringScanOptions → Option DecodedString
unfolding nul_candidates best_of
best_nul_candidate bytes options = best_candidate (nul_candidates bytes options)

unfoldable pub first_u16 : List ℕ → Bool → ℕ
unfolding read_u16
first_u16 [] big_endian = 0
first_u16 (p0 ∷ []) big_endian = 0
first_u16 (p0 ∷ p1 ∷ bytes) big_endian = read_u16 p0 p1 big_endian

unfoldable pub first_u32 : List ℕ → Bool → ℕ
unfolding read_u32
first_u32 (p0 ∷ p1 ∷ p2 ∷ p3 ∷ bytes) big_endian = read_u32 p0 p1 p2 p3 big_endian
first_u32 bytes big_endian = 0

abbrev pub first_u8 : List ℕ → ℕ
first_u8 [] = 0
first_u8 (p0 ∷ bytes) = p0

-- The caller has checked that the prefix is there.
unfoldable pub read_prefix : List ℕ → ℕ → Bool → ℕ
unfolding first_u16 first_u32
read_prefix bytes width big_endian =
    if width == 1
    then first_u8 bytes
    else if width == 2
    then first_u16 bytes big_endian
    else if width == 4
    then first_u32 bytes big_endian
    else 0

-- The sizes of the payload and of the whole string, when they are within the limit.
unfoldable pub checked_payload_size : ℕ → ℕ → ℕ → ℕ → Option (ℕ × ℕ)
checked_payload_size units unit_width prefix_width maximum =
    if units == 0 || ltb ((2 ^ 64 - 1) / unit_width) units
    then none
    else if ltb maximum (units * unit_width) || ltb (maximum - units * unit_width) prefix_width
    then none
    else some (units * unit_width, prefix_width + units * unit_width)
