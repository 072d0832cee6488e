-- ===== src/Runtime/Utf16RoundTrip.antt =====
-- decode_utf16_exact reads back the UTF-16 form of a text, in both byte orders
-- (src/runtime_enrich_core.cpp).
use viy.Base.{
  ℕ, zero, suc, ◌+◌, ◌-◌, ◌*◌, ◌/◌, ◌%◌, ◌≤◌, ◌<◌, ◌≡◌, refl, Bool, true, false, some, List, [],
  ◌∷◌, ◌++◌, arith, length, length-append, All, ltb, ◌==◌, if◌then◌else◌, if_rule,
}
use viy.Runtime.Utf8.{between, scalar_is_text}
use viy.Runtime.Wide.{
  read_u16, surrogate_pair, utf16_char, utf16_loop, enough_characters, decode_utf16_exact,
}

unfoldable pub unit_bytes : Bool → ℕ → List ℕ
unit_bytes true u = u / 256 ∷ u % 256 ∷ []
unit_bytes false u = u % 256 ∷ u / 256 ∷ []

-- One unit, or a surrogate pair.
unfoldable pub utf16_bytes : Bool → ℕ → List ℕ
unfolding unit_bytes
utf16_bytes big_endian cp =
    if ltb cp 0x10000
    then unit_bytes big_endian cp
    else unit_bytes big_endian (0xd800 + (cp - 0x10000) / 0x400)
      ++ unit_bytes big_endian (0xdc00 + (cp - 0x10000) % 0x400)

unfoldable pub utf16_text : Bool → List ℕ → List ℕ
unfolding utf16_bytes
utf16_text big_endian [] = []
utf16_text big_endian (cp ∷ cps) = utf16_bytes big_endian cp ++ utf16_text big_endian cps

read_big : (u : ℕ) → read_u16 (u / 256) (u % 256) true ≡ u
unfolding read_u16
read_big u = omega arith

read_little : (u : ℕ) → read_u16 (u % 256) (u / 256) false ≡ u
unfolding read_u16
read_little u = omega arith

unit_char :
    (big_endian : Bool) (cp : ℕ) (rest : List ℕ)
    → scalar_is_text cp ≡ true
    → utf16_char big_endian cp rest ≡ some (cp, rest)
unfolding utf16_char scalar_is_text
unit_char big_endian cp rest h = ground arith

pair_second :
    (big_endian : Bool) (first second : ℕ) (rest : List ℕ)
    → second < 0x400
    → surrogate_pair big_endian first (unit_bytes big_endian (0xdc00 + second) ++ rest)
      ≡ some (0x10000 + ((first - 0xd800) * 0x400 + second), rest)
unfolding surrogate_pair unit_bytes
pair_second true first second rest h = rw (read_big (0xdc00 + second)) (ground arith)
pair_second false first second rest h = rw (read_little (0xdc00 + second)) (ground arith)

pair_char :
    (big_endian : Bool) (cp : ℕ) (rest : List ℕ)
    → scalar_is_text cp ≡ true
    → ltb cp 0x10000 ≡ false
    → utf16_char big_endian
        (0xd800 + (cp - 0x10000) / 0x400)
        (unit_bytes big_endian (0xdc00 + (cp - 0x10000) % 0x400) ++ rest)
      ≡ some (cp, rest)
unfolding utf16_char scalar_is_text
pair_char big_endian cp rest h l =
    let e : between 0xd800 0xdbff (0xd800 + (cp - 0x10000) / 0x400) ≡ true = ground arith in
    let f : 0x10000 + ((0xd800 + (cp - 0x10000) / 0x400 - 0xd800) * 0x400 + (cp - 0x10000) % 0x400)
        ≡ cp =
      ground arith in
    rw
      (
        e,
        pair_second big_endian (0xd800 + (cp - 0x10000) / 0x400) ((cp - 0x10000) % 0x400) rest
            (omega arith),
        f,
      )
      refl

unit_step :
    (fuel : ℕ) (big_endian : Bool) (u cp : ℕ) (after rest cps : List ℕ)
    → utf16_char big_endian u after ≡ some (cp, rest)
    → scalar_is_text cp ≡ true
    → utf16_loop fuel big_endian rest ≡ some cps
    → utf16_loop (suc fuel) big_endian (unit_bytes big_endian u ++ after) ≡ some (cp ∷ cps)
unfolding utf16_loop unit_bytes
unit_step fuel true u cp after rest cps c t e = rw (read_big u, c, e, t) refl
unit_step fuel false u cp after rest cps c t e = rw (read_little u, c, e, t) refl

pair_step :
    (fuel : ℕ) (big_endian : Bool) (high low cp : ℕ) (rest cps : List ℕ)
    → utf16_char big_endian high (unit_bytes big_endian low ++ rest) ≡ some (cp, rest)
    → scalar_is_text cp ≡ true
    → utf16_loop fuel big_endian rest ≡ some cps
    → utf16_loop
        (suc fuel)
        big_endian
        ((unit_bytes big_endian high ++ unit_bytes big_endian low) ++ rest)
      ≡ some (cp ∷ cps)
unfolding unit_bytes
pair_step fuel true high low cp rest cps c t e =
    unit_step fuel true high cp (unit_bytes true low ++ rest) rest cps c t e
pair_step fuel false high low cp rest cps c t e =
    unit_step fuel false high cp (unit_bytes false low ++ rest) rest cps c t e

char_step :
    (fuel : ℕ) (big_endian : Bool) (cp : ℕ) (rest cps : List ℕ)
    → scalar_is_text cp ≡ true
    → utf16_loop fuel big_endian rest ≡ some cps
    → utf16_loop (suc fuel) big_endian (utf16_bytes big_endian cp ++ rest) ≡ some (cp ∷ cps)
unfolding utf16_bytes
char_step fuel big_endian cp rest cps t e =
    if_rule (λ bytes. utf16_loop (suc fuel) big_endian (bytes ++ rest) ≡ some (cp ∷ cps))
      (ltb cp 0x10000) _ _
      (λ low. unit_step fuel big_endian cp cp rest rest cps (unit_char big_endian cp rest t) t e)
      (λ high.
        pair_step fuel big_endian (0xd800 + (cp - 0x10000) / 0x400)
          (0xdc00 + (cp - 0x10000) % 0x400) cp rest cps (pair_char big_endian cp rest t high) t e)

bytes_even :
    (big_endian : Bool) (cp : ℕ)
    → (2 ≤ length (utf16_bytes big_endian cp)) × (length (utf16_bytes big_endian cp) % 2 ≡ 0)
unfolding utf16_bytes unit_bytes
bytes_even true cp = ground arith
bytes_even false cp = ground arith

text_even : (big_endian : Bool) (cps : List ℕ) → length (utf16_text big_endian cps) % 2 ≡ 0
unfolding utf16_text
text_even big_endian [] = refl
text_even big_endian (cp ∷ cps) = omega (
  arith,
  length-append (utf16_bytes big_endian cp) (utf16_text big_endian cps),
  (bytes_even big_endian cp).1,
  text_even big_endian cps,
)

text_loop :
    (fuel : ℕ) (big_endian : Bool) (cps : List ℕ)
    → All (λ cp. scalar_is_text cp ≡ true) cps
    → length (utf16_text big_endian cps) ≤ fuel
    → utf16_loop fuel big_endian (utf16_text big_endian cps) ≡ some cps
unfolding utf16_loop utf16_text
text_loop fuel big_endian [] text enough = refl
text_loop zero big_endian (cp ∷ cps) text enough = absurd (
    omega (
      arith,
      length-append (utf16_bytes big_endian cp) (utf16_text big_endian cps),
      (bytes_even big_endian cp).0,
    ))
text_loop (suc fuel) big_endian (cp ∷ cps) (t, text) enough =
    char_step fuel big_endian cp (utf16_text big_endian cps) cps t (
      text_loop fuel big_endian cps text (
        omega (
          arith,
          length-append (utf16_bytes big_endian cp) (utf16_text big_endian cps),
          (bytes_even big_endian cp).0,
        )))

text_length : (big_endian : Bool) (cps : List ℕ) → length cps ≤ length (utf16_text big_endian cps)
unfolding utf16_text
text_length big_endian [] = omega arith
text_length big_endian (cp ∷ cps) = omega (
  arith,
  length-append (utf16_bytes big_endian cp) (utf16_text big_endian cps),
  (bytes_even big_endian cp).0,
  text_length big_endian cps,
)

-- The UTF-16 form of a text that is not empty, in either byte order, decodes to the same
-- characters, when there are at least as many as the minimum.
pub decode_utf16_exact-utf16_text :
    (cps : List ℕ) (big_endian : Bool) (minimum : ℕ)
    → All (λ cp. scalar_is_text cp ≡ true) cps
    → 0 < length cps
    → minimum ≤ length cps
    → decode_utf16_exact (utf16_text big_endian cps) big_endian minimum ≡ some cps
unfolding decode_utf16_exact enough_characters
decode_utf16_exact-utf16_text cps big_endian minimum text nonempty enough =
    let size = length (utf16_text big_endian cps) in
    let e : (size == 0) ≡ false = ground (arith, text_length big_endian cps) in
    let f : (size % 2 == 0) ≡ true = ground (arith, text_even big_endian cps) in
    let g = text_loop size big_endian cps text (omega arith) in
    let h : ltb (length cps) minimum ≡ false = ground arith in rw (e, f, g, h) refl
