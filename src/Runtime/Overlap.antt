-- ===== src/Runtime/Overlap.antt =====
-- The test of a range against the pointer words of a write (overlaps_pointer in
-- collect_string_groups of src/runtime_enrich_core.cpp).
use viy.Base.{
  ℕ, zero, suc, ◌+◌, ◌-◌, ◌%◌, ◌≤◌, ◌<◌, ◌≡◌, refl, Bool, false, not, ◌&&◌, ◌||◌, inl, inr, some,
  List, [], ◌∷◌, arith, length, take, drop, ltb, leb, ◌==◌, Bool-cases, Option-cases, if_rule,
}
use viy.Runtime.Candidates.{StringScanOptions}
use viy.Runtime.Pointers.{AddrRange, is_pointer}
use viy.Runtime.Writes.{MemoryBytes}
use viy.Runtime.Scan.{
  word, word_offsets, no_ranges, pointer_offsets, offset_from, offset_before, overlaps_pointer,
}

-- Some word of `width` bytes has a byte in common with the `size` bytes from `start`.
unfoldable pub meets : ℕ → ℕ → ℕ → ℕ → Bool
meets width start size off = ltb off (start + size) && ltb start (off + width)

unfoldable pub any_meets : ℕ → ℕ → ℕ → List ℕ → Bool
unfolding meets
any_meets width start size [] = false
any_meets width start size (off ∷ offsets) =
    meets width start size off || any_meets width start size offsets

unfoldable Ascends : ℕ → List ℕ → Type 0
Ascends lo [] = Unit
Ascends lo (off ∷ offsets) = (lo ≤ off) × Ascends off offsets

lower_start : (lo hi : ℕ) (offsets : List ℕ) → lo ≤ hi → Ascends hi offsets → Ascends lo offsets
unfolding Ascends
lower_start lo hi [] le h = tt
lower_start lo hi (off ∷ offsets) le (l, h) = (omega arith, h)

word_offsets-Ascends :
    (fuel : ℕ) (big_endian : Bool) (width : ℕ) (mapped : List AddrRange) (bytes : List ℕ) (off : ℕ)
    → Ascends off (word_offsets fuel big_endian width mapped bytes off)
unfolding word_offsets Ascends
word_offsets-Ascends zero big_endian width mapped bytes off = tt
word_offsets-Ascends (suc fuel) big_endian width mapped bytes off =
    let above = word_offsets-Ascends fuel big_endian width mapped bytes (off + width) in
    let rest = lower_start off (off + width) _ (omega arith) above in
    if_rule (Ascends off) (ltb off (length bytes) && leb width (length bytes - off)) _ _
      (λ inside.
        if_rule (Ascends off) (is_pointer mapped (word big_endian (take width (drop off bytes)))) _
          _ (λ yes. (omega arith, rest)) (λ no. rest))
      (λ outside. tt)

far :
    (width start size off : ℕ) (offsets : List ℕ)
    → Ascends off offsets
    → start + size ≤ off
    → any_meets width start size offsets ≡ false
unfolding any_meets meets Ascends
far width start size off [] h le = refl
far width start size off (o ∷ offsets) (l, h) le =
    let rest = far width start size o offsets h (omega arith) in
    let e : ltb o (start + size) ≡ false = ground arith in rw (e, rest) refl

before_above :
    (start off o : ℕ) (offsets : List ℕ)
    → Ascends off offsets
    → offset_before start offsets ≡ some o
    → (off ≤ o) × (o < start)
unfolding offset_before Ascends
before_above start off o [] h e = ground arith
before_above start off o (p ∷ offsets) (l, h) e =
    elim (Option-cases (offset_before start offsets)) [
      | inl f ↦ ground arith
      | inr (q, f) ↦ ground (arith, before_above start p q offsets h f)
    ]

no_pointers :
    (width start size : ℕ) → overlaps_pointer [] width start size ≡ any_meets width start size []
unfolding overlaps_pointer any_meets
no_pointers width start size = refl

overlap_found :
    (width start size lo : ℕ) (offsets : List ℕ)
    → 0 < width
    → Ascends lo offsets
    → overlaps_pointer offsets width start size ≡ any_meets width start size offsets
unfolding overlaps_pointer offset_from offset_before any_meets meets Ascends
overlap_found width start size lo [] pos h = refl
overlap_found width start size lo (off ∷ offsets) pos (l, h) = elim (Bool-cases (ltb off start)) [
  | inl before ↦ elim (Option-cases (offset_before start offsets)) [
    | inl e ↦ ground (arith, overlap_found width start size off offsets pos h)
    | inr (o, e) ↦ ground (
      arith,
      overlap_found width start size off offsets pos h,
      before_above start off o offsets h e,
    )
  ]
  | inr after ↦ elim (Bool-cases (leb (start + size) off)) [
    | inl beyond ↦ ground (arith, far width start size off offsets h (ground arith))
    | inr near ↦ ground arith
  ]
]

-- The two searches find out whether a range has a byte in common with any pointer word of
-- a write, for every range.
pub overlaps_pointer-pointer_offsets :
    (options : StringScanOptions) (mapped : List AddrRange) (o : MemoryBytes) (start size : ℕ)
    → overlaps_pointer (pointer_offsets options mapped o) options.pointer_width start size
      ≡ any_meets options.pointer_width start size (pointer_offsets options mapped o)
unfolding pointer_offsets
overlaps_pointer-pointer_offsets options mapped o start size =
    let width = options.pointer_width in
    if_rule
      (λ offsets. overlaps_pointer offsets width start size ≡ any_meets width start size offsets)
      (not (no_ranges mapped) && (width == 4 || width == 8)) _ _
      (λ words. overlap_found width start size _ _ (ground arith) (
        word_offsets-Ascends (length o.bytes) options.image_big_endian width mapped o.bytes
          ((width - o.addr % width) % width)))
      (λ no_words. no_pointers width start size)
