-- ===== src/Runtime/Pascal.antt =====
-- Strings with a length before them (add_pascal_interpretations and unique_pascal_candidate of
-- src/runtime_enrich_core.cpp).
use viy.Base.{
  ℕ, Option, none, some, List, [], ◌∷◌, ◌++◌, length, take, drop, ltb, leb, if◌then◌else◌,
}
use viy.Runtime.Utf8.{
  ◌>>=◌, RuntimeEncoding, utf16_le, utf16_be, utf32_le, utf32_be, decode_utf8_exact,
}
use viy.Runtime.Wide.{decode_utf16_exact, decode_utf32_exact}
use viy.Runtime.Candidates.{
  StringLayout, pascal8, pascal16, pascal32, DecodedString, StringScanOptions, assign_candidate,
  found, read_prefix, checked_payload_size,
}

-- One reading of the prefix: its units have `unit_width` bytes, and `decode` reads the payload.
unfoldable pub interpretation :
    (List ℕ → Option (List ℕ × RuntimeEncoding))
    → ℕ
    → List ℕ
    → ℕ
    → StringLayout
    → StringScanOptions
    → Option DecodedString
unfolding read_prefix checked_payload_size assign_candidate
interpretation decode unit_width bytes prefix_width layout options = do
  (payload_size, raw_size) ←
      checked_payload_size (read_prefix bytes prefix_width options.image_big_endian) unit_width
        prefix_width options.max_candidate_bytes
  (codepoints, encoding) ←
      (if leb payload_size (length (drop prefix_width bytes))
        then decode (take payload_size (drop prefix_width bytes))
        else none)
  some (assign_candidate bytes raw_size encoding layout codepoints)

abbrev pub decode_as : RuntimeEncoding → Option (List ℕ) → Option (List ℕ × RuntimeEncoding)
decode_as encoding none = none
decode_as encoding (some codepoints) = some (codepoints, encoding)

-- What add_pascal_interpretations appends to the candidates.
unfoldable pub pascal_interpretations :
    List ℕ → ℕ → StringLayout → StringScanOptions → List DecodedString
unfolding interpretation
pascal_interpretations bytes prefix_width layout options =
    let big = options.image_big_endian in
    let minimum = options.minimum_characters in
    if ltb (length bytes) prefix_width
    then []
    else found (
        interpretation (λ payload. decode_utf8_exact payload minimum) 1 bytes prefix_width layout
          options)
      ++ (if options.allow_unicode
          then found (
              interpretation
                (λ payload.
                  decode_as (if big then utf16_be else utf16_le)
                    (decode_utf16_exact payload big minimum))
                2 bytes prefix_width layout options)
            ++ found (
                interpretation
                  (λ payload.
                    decode_as (if big then utf32_be else utf32_le)
                      (decode_utf32_exact payload big minimum))
                  4 bytes prefix_width layout options)
          else [])

abbrev pub only_one : List DecodedString → Option DecodedString
only_one [] = none
only_one (c ∷ []) = some c
only_one (c ∷ d ∷ candidates) = none

unfoldable pub unique_pascal_candidate : List ℕ → StringScanOptions → Option DecodedString
unfolding pascal_interpretations
unique_pascal_candidate bytes options =
    if options.allow_length_prefixed
    then only_one (
        pascal_interpretations bytes 1 pascal8 options
        ++ (pascal_interpretations bytes 2 pascal16 options
            ++ pascal_interpretations bytes 4 pascal32 options))
    else none
