-- ===== src/Runtime/Utf8.antt =====
-- Text scalars and UTF-8 (scalar_is_text, append_utf8 and decode_utf8_exact of
-- src/runtime_enrich_core.cpp). A mask or a shift by k bits is `%` or `/` by 2 ^ k, and joining
-- disjoint bit fields is addition.
use viy.Base.{
  ℕ, zero, suc, ◌+◌, ◌*◌, ◌/◌, ◌%◌, Bool, true, false, not, ◌&&◌, ◌||◌, Option, none, some, List,
  [], ◌∷◌, length, ltb, leb, ◌==◌, if◌then◌else◌,
}

abbrev pub between : ℕ → ℕ → ℕ → Bool
between lo hi x = leb lo x && leb x hi

unfoldable pub scalar_is_text : ℕ → Bool
scalar_is_text cp =
    if cp == 0x09 || cp == 0x0a || cp == 0x0d
    then true
    else if ltb cp 0x20 || between 0x7f 0x9f cp
    then false
    else if between 0xe000 0xf8ff cp
        || between 0xf0000 0xffffd cp
        || between 0x100000 0x10fffd cp
        || between 0xfdd0 0xfdef cp
        || leb 0xfffe (cp % 0x10000)
    then false
    else leb cp 0x10ffff && not (between 0xd800 0xdfff cp)

-- append_utf8: the bytes that it appends
unfoldable pub utf8_bytes : ℕ → List ℕ
utf8_bytes cp =
    if leb cp 0x7f
    then cp ∷ []
    else if leb cp 0x7ff
    then (0xc0 + cp / 0x40) ∷ (0x80 + cp % 0x40) ∷ []
    else if leb cp 0xffff
    then (0xe0 + cp / 0x1000) ∷ (0x80 + cp / 0x40 % 0x40) ∷ (0x80 + cp % 0x40) ∷ []
    else (0xf0 + cp / 0x40000)
      ∷ (0x80 + cp / 0x1000 % 0x40)
      ∷ (0x80 + cp / 0x40 % 0x40)
      ∷ (0x80 + cp % 0x40)
      ∷ []

-- What the first byte of a character gives: its bits, and how many bytes follow.
unfoldable pub lead : ℕ → Option (ℕ × ℕ)
lead first =
    if ltb first 0x80
    then some (first, 0)
    else if between 0xc2 0xdf first
    then some (first % 0x20, 1)
    else if between 0xe0 0xef first
    then some (first % 0x10, 2)
    else if between 0xf0 0xf4 first
    then some (first % 0x08, 3)
    else none

-- The bytes that follow; to run out of them is the source's test `extra >= size - i`.
unfoldable pub continuation : ℕ → ℕ → List ℕ → Option (ℕ × List ℕ)
continuation zero cp bytes = some (cp, bytes)
continuation (suc extra) cp [] = none
continuation (suc extra) cp (b ∷ bytes) =
    let rest = continuation extra (cp * 0x40 + b % 0x40) bytes in
    if b / 0x40 == 2 then rest else none

-- Overlong forms, surrogates and what is not text are refused.
unfoldable pub checked_scalar : ℕ → ℕ × List ℕ → Option (ℕ × List ℕ)
unfolding scalar_is_text
checked_scalar extra (cp, rest) =
    if extra == 2 && ltb cp 0x800 || extra == 3 && ltb cp 0x10000 || not (scalar_is_text cp)
    then none
    else some (cp, rest)

infixl 5 ◌>>=◌
abbrev pub ◌>>=◌ {ℓ κ} : {A : Type ℓ} {B : Type κ} → Option A → (A → Option B) → Option B
none >>= f = none
some a >>= f = f a

-- One character, and the bytes behind it.
unfoldable pub utf8_char : ℕ → List ℕ → Option (ℕ × List ℕ)
unfolding lead continuation checked_scalar
utf8_char first bytes = do
  (bits, extra) ← lead first
  decoded ← continuation extra bits bytes
  checked_scalar extra decoded

-- The loop. A character takes a byte at least, so the number of bytes is fuel enough.
unfoldable pub utf8_loop : ℕ → List ℕ → Option (List ℕ)
unfolding utf8_char
utf8_loop fuel [] = some []
utf8_loop zero (b ∷ bytes) = none
utf8_loop (suc fuel) (b ∷ bytes) = do
  (cp, rest) ← utf8_char b bytes
  cps ← utf8_loop fuel rest
  some (cp ∷ cps)

unfoldable pub all_ascii : List ℕ → Bool
all_ascii [] = true
all_ascii (cp ∷ cps) = ltb cp 0x80 && all_ascii cps

pub data RuntimeEncoding : Type 0 where
  ascii utf8 utf16_le utf16_be utf32_le utf32_be : RuntimeEncoding

unfoldable pub decode_utf8_exact : List ℕ → ℕ → Option (List ℕ × RuntimeEncoding)
unfolding utf8_loop all_ascii
decode_utf8_exact bytes minimum_characters = do
  result ← utf8_loop (length bytes) bytes
  if ltb (length result) minimum_characters
      then none
      else some (result, if all_ascii result then ascii else utf8)
