-- ===== src/Runtime/Utf8RoundTrip.antt =====
-- Decoding what append_utf8 wrote gives the text back (src/runtime_enrich_core.cpp).
use viy.Base.{
  ℕ, zero, suc, ◌+◌, ◌*◌, ◌/◌, ◌%◌, ◌≤◌, ◌<◌, ◌≡◌, refl, true, false, inl, inr, some, List, [], ◌∷◌,
  ◌++◌, arith, length, length-append, All, ltb, leb, if◌then◌else◌, Bool-cases,
}
use viy.Runtime.Utf8.{
  scalar_is_text, utf8_bytes, lead, continuation, checked_scalar, utf8_char, utf8_loop, all_ascii,
  ascii, utf8, decode_utf8_exact,
}

-- The whole text's bytes, by append_utf8 for each character.
unfoldable pub utf8_text : List ℕ → List ℕ
utf8_text [] = []
utf8_text (cp ∷ cps) = utf8_bytes cp ++ utf8_text cps

text_le : (cp : ℕ) → scalar_is_text cp ≡ true → cp ≤ 0x10ffff
unfolding scalar_is_text
text_le cp h = ground arith

-- A character is decoded from its bytes, whatever follows.
abbrev Decodes : ℕ → List ℕ → List ℕ → Type 0
Decodes cp [] rest = ⊥
Decodes cp (b ∷ bs) rest = utf8_char b (bs ++ rest) ≡ some (cp, rest)

lead_two : (q : ℕ) → 2 ≤ q → q < 32 → lead (0xc0 + q) ≡ some (q, 1)
unfolding lead
lead_two q low high = ground arith

lead_three : (q : ℕ) → q < 16 → lead (0xe0 + q) ≡ some (q, 2)
unfolding lead
lead_three q high = ground arith

lead_four : (q : ℕ) → q < 5 → lead (0xf0 + q) ≡ some (q, 3)
unfolding lead
lead_four q high = ground arith

continuation_byte :
    (extra cp v : ℕ) (rest : List ℕ)
    → v < 64
    → continuation (suc extra) cp ((0x80 + v) ∷ rest) ≡ continuation extra (cp * 0x40 + v) rest
unfolding continuation
continuation_byte extra cp v rest h = ground arith

checked_two :
    (cp : ℕ) (rest : List ℕ)
    → scalar_is_text cp ≡ true
    → checked_scalar 1 (cp, rest) ≡ some (cp, rest)
unfolding checked_scalar
checked_two cp rest h = rw h refl

checked_three :
    (cp : ℕ) (rest : List ℕ)
    → scalar_is_text cp ≡ true
    → leb cp 0x7ff ≡ false
    → checked_scalar 2 (cp, rest) ≡ some (cp, rest)
unfolding checked_scalar
checked_three cp rest h b = let e : ltb cp 0x800 ≡ false = ground arith in rw (h, e) refl

checked_four :
    (cp : ℕ) (rest : List ℕ)
    → scalar_is_text cp ≡ true
    → leb cp 0xffff ≡ false
    → checked_scalar 3 (cp, rest) ≡ some (cp, rest)
unfolding checked_scalar
checked_four cp rest h b = let e : ltb cp 0x10000 ≡ false = ground arith in rw (h, e) refl

one_byte :
    (cp : ℕ) (rest : List ℕ)
    → scalar_is_text cp ≡ true
    → leb cp 0x7f ≡ true
    → utf8_char cp rest ≡ some (cp, rest)
unfolding utf8_char lead continuation checked_scalar
one_byte cp rest h a = let e : ltb cp 0x80 ≡ true = ground arith in rw (e, h) refl

two_bytes :
    (cp : ℕ) (rest : List ℕ)
    → scalar_is_text cp ≡ true
    → leb cp 0x7f ≡ false
    → leb cp 0x7ff ≡ true
    → utf8_char (0xc0 + cp / 64) ((0x80 + cp % 64) ∷ rest) ≡ some (cp, rest)
unfolding utf8_char continuation
two_bytes cp rest h a b =
    let e : cp / 64 * 64 + cp % 64 ≡ cp = omega arith in
    rw
      (
        lead_two (cp / 64) (ground arith) (ground arith),
        continuation_byte 0 (cp / 64) (cp % 64) rest (omega arith),
        e,
      )
      (checked_two cp rest h)

three_bytes :
    (cp : ℕ) (rest : List ℕ)
    → scalar_is_text cp ≡ true
    → leb cp 0x7ff ≡ false
    → leb cp 0xffff ≡ true
    → utf8_char (0xe0 + cp / 4096) ((0x80 + cp / 64 % 64) ∷ (0x80 + cp % 64) ∷ rest)
      ≡ some (cp, rest)
unfolding utf8_char continuation
three_bytes cp rest h a b =
    let e : (cp / 4096 * 64 + cp / 64 % 64) * 64 + cp % 64 ≡ cp = omega arith in
    rw
      (
        lead_three (cp / 4096) (ground arith),
        continuation_byte 1 (cp / 4096) (cp / 64 % 64) ((0x80 + cp % 64) ∷ rest) (omega arith),
        continuation_byte 0 (cp / 4096 * 64 + cp / 64 % 64) (cp % 64) rest (omega arith),
        e,
      )
      (checked_three cp rest h a)

four_bytes :
    (cp : ℕ) (rest : List ℕ)
    → scalar_is_text cp ≡ true
    → leb cp 0xffff ≡ false
    → utf8_char
        (0xf0 + cp / 262144)
        ((0x80 + cp / 4096 % 64) ∷ (0x80 + cp / 64 % 64) ∷ (0x80 + cp % 64) ∷ rest)
      ≡ some (cp, rest)
unfolding utf8_char continuation
four_bytes cp rest h a =
    let e : ((cp / 262144 * 64 + cp / 4096 % 64) * 64 + cp / 64 % 64) * 64 + cp % 64 ≡ cp =
      omega arith in
    rw
      (
        lead_four (cp / 262144) (omega (arith, text_le cp h)),
        continuation_byte 2 (cp / 262144) (cp / 4096 % 64)
            ((0x80 + cp / 64 % 64) ∷ (0x80 + cp % 64) ∷ rest) (omega arith),
        continuation_byte 1 (cp / 262144 * 64 + cp / 4096 % 64) (cp / 64 % 64)
            ((0x80 + cp % 64) ∷ rest) (omega arith),
        continuation_byte 0 ((cp / 262144 * 64 + cp / 4096 % 64) * 64 + cp / 64 % 64) (cp % 64) rest
            (omega arith),
        e,
      )
      (checked_four cp rest h a)

utf8_char-bytes :
    (cp : ℕ) (rest : List ℕ) → scalar_is_text cp ≡ true → Decodes cp (utf8_bytes cp) rest
unfolding utf8_bytes
utf8_char-bytes cp rest h = elim (Bool-cases (leb cp 0x7f)) [
  | inl a ↦ rw (a, utf8_bytes) (one_byte cp rest h a)
  | inr a ↦ elim (Bool-cases (leb cp 0x7ff)) [
    | inl b ↦ rw (a, b, utf8_bytes) (two_bytes cp rest h a b)
    | inr b ↦ elim (Bool-cases (leb cp 0xffff)) [
      | inl c ↦ rw (a, b, c, utf8_bytes) (three_bytes cp rest h b c)
      | inr c ↦ rw (a, b, c, utf8_bytes) (four_bytes cp rest h c)
    ]
  ]
]

loop_char :
    (fuel cp : ℕ) (bs rest cps : List ℕ)
    → Decodes cp bs rest
    → utf8_loop fuel rest ≡ some cps
    → utf8_loop (suc fuel) (bs ++ rest) ≡ some (cp ∷ cps)
unfolding utf8_loop
loop_char fuel cp [] rest cps d e = elim d [ ]
loop_char fuel cp (b ∷ bs) rest cps d e = rw (d, e) refl

length_bytes_pos : (cp : ℕ) → 1 ≤ length (utf8_bytes cp)
unfolding utf8_bytes
length_bytes_pos cp = ground arith

text_loop :
    (fuel : ℕ) (cps : List ℕ)
    → All (λ cp. scalar_is_text cp ≡ true) cps
    → length (utf8_text cps) ≤ fuel
    → utf8_loop fuel (utf8_text cps) ≡ some cps
unfolding utf8_loop utf8_text
text_loop fuel [] text enough = refl
text_loop zero (cp ∷ cps) text enough =
    absurd (omega (arith, length-append (utf8_bytes cp) (utf8_text cps), length_bytes_pos cp))
text_loop (suc fuel) (cp ∷ cps) (t, text) enough =
    loop_char fuel cp (utf8_bytes cp) (utf8_text cps) cps (utf8_char-bytes cp (utf8_text cps) t) (
      text_loop fuel cps text
        (omega (arith, length-append (utf8_bytes cp) (utf8_text cps), length_bytes_pos cp)))

-- Text that append_utf8 wrote character by character decodes to the same characters, when there
-- are at least as many as the minimum, and is called ASCII when all of them are.
pub decode_utf8_exact-utf8_text :
    (cps : List ℕ) (minimum : ℕ)
    → All (λ cp. scalar_is_text cp ≡ true) cps
    → minimum ≤ length cps
    → decode_utf8_exact (utf8_text cps) minimum ≡ some (cps, if all_ascii cps then ascii else utf8)
unfolding decode_utf8_exact
decode_utf8_exact-utf8_text cps minimum text enough =
    let e = text_loop (length (utf8_text cps)) cps text (omega arith) in
    let f : ltb (length cps) minimum ≡ false = ground arith in rw (e, f) refl
