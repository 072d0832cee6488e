-- ===== src/Abi/Seed.antt =====
-- The deterministic argument values of a run (viy_seed_argument_corpus of src/abi_policy.cpp).
use viy.Base.{
  ℕ, zero, suc, ◌+◌, ◌-◌, ◌*◌, ◌/◌, ◌%◌, ◌^◌, ◌≤◌, ◌<◌, ◌≡◌, refl, ap, not, ◌&&◌, Option, none,
  some, List, [], ◌∷◌, arith, length, get_elem?, bit_xor, ltb, leb, ◌==◌, if◌then◌else◌,
}
use native.Mathlib.Nat.{mod-lt}
use viy.Abi.Defs.{u64_max, checked_add}

pub data SeedValueKind : Type 0 where
  zero_value one_value u16_max i16_max i16_min image_pointer stack_pointer mixed : SeedValueKind

pub record SeedValue : Type 0 where
  pub value : ℕ
  pub kind : SeedValueKind

-- One step of the mixer, in 64-bit arithmetic.
unfoldable pub mix : ℕ → ℕ
mix m =
    let a : ℕ = bit_xor m (m / 2 ^ 33) in
    let b : ℕ = a * 0xff51afd7ed558ccd % 2 ^ 64 in bit_xor b (b / 2 ^ 33)

-- The middle and the end of the stack, if it is mapped.
unfoldable pub stack_range : ℕ → ℕ → Option (ℕ × ℕ)
stack_range base size = elim (checked_add base size) [
  | none ↦ none
  | some end ↦ elim (checked_add base (size / 2)) [
    | none ↦ none
    | some middle ↦ if not (size == 0) && ltb middle end then some (middle, end) else none
  ]
]

-- case 6: a slot of the stack's upper half, by the argument's position
unfoldable pub pointer_item : ℕ → ℕ → Option (ℕ × ℕ) → SeedValue
pointer_item m index none = record { value = m; kind = mixed }
pointer_item m index (some (middle, end)) =
    let slots : ℕ = 1 + (end - middle - 1) / 0x100 in
    let pointer : Option ℕ = checked_add middle (index % slots * 0x100) in
    elim pointer [
      | none ↦ record { value = m; kind = mixed }
      | some p ↦
          if leb end p
          then record { value = m; kind = mixed }
          else record { value = p; kind = stack_pointer }
    ]

unfoldable pub seed_item : ℕ → ℕ → ℕ → ℕ → Option (ℕ × ℕ) → SeedValue
unfolding pointer_item
seed_item place m index image_lo stack =
    if place == 0
    then record { value = 0; kind = zero_value }
    else if place == 1
    then record { value = 1; kind = one_value }
    else if place == 2
    then record { value = 0xffff; kind = u16_max }
    else if place == 3
    then record { value = 0x7fff; kind = i16_max }
    else if place == 4
    then record { value = 0xffff_ffff_ffff_8000; kind = i16_min }
    else if place == 5
    then record { value = image_lo; kind = image_pointer }
    else if place == 6
    then pointer_item m index stack
    else record { value = m; kind = mixed }

-- The loop, from a position on, with the rounds left first.
unfoldable pub corpus_loop : ℕ → ℕ → ℕ → ℕ → ℕ → Option (ℕ × ℕ) → List SeedValue
unfolding seed_item mix
corpus_loop zero seed index m image_lo stack = []
corpus_loop (suc n) seed index m image_lo stack =
    let m' = mix m in
    seed_item ((seed + index) % 2 ^ 64 % 8) m' index image_lo stack
    ∷ corpus_loop n seed (index + 1) m' image_lo stack

unfoldable pub seed_argument_corpus : ℕ → ℕ → ℕ → ℕ → ℕ → List SeedValue
unfolding corpus_loop stack_range
seed_argument_corpus seed count image_lo stack_base stack_size =
    corpus_loop count seed 0 ((seed * 0x9e3779b97f4a7c15 + 0x1234567) % 2 ^ 64) image_lo
      (stack_range stack_base stack_size)

-- The kind that each residue of seed and position selects, where the stack is mapped.
abbrev pub kind_at : ℕ → SeedValueKind
kind_at place =
    if place == 0
    then zero_value
    else if place == 1
    then one_value
    else if place == 2
    then u16_max
    else if place == 3
    then i16_max
    else if place == 4
    then i16_min
    else if place == 5
    then image_pointer
    else if place == 6
    then stack_pointer
    else mixed

-- In a mapped stack the slot always lies below the end.
pointer_item-kind :
    (m index middle end : ℕ)
    → middle < end
    → end ≤ u64_max
    → ((pointer_item m index (some (middle, end))).kind ≡ stack_pointer)
      × (middle ≤ (pointer_item m index (some (middle, end))).value)
      × ((pointer_item m index (some (middle, end))).value < end)
unfolding pointer_item
pointer_item-kind m index middle end h k =
    let slots : ℕ = 1 + (end - middle - 1) / 0x100 in
    let fits : index % slots * 0x100 ≤ end - middle - 1 =
      omega (arith, mod-lt index {m = slots} (omega arith)) in
    (ground (arith, fits), ground (arith, fits), ground (arith, fits))

pointer_item-none : (m index : ℕ) → (pointer_item m index none).kind ≡ mixed
unfolding pointer_item
pointer_item-none m index = refl

seed_item-kind :
    (place m index image_lo middle end : ℕ)
    → middle < end
    → end ≤ u64_max
    → (seed_item place m index image_lo (some (middle, end))).kind ≡ kind_at place
unfolding seed_item
seed_item-kind place m index image_lo middle end h k =
    ground (arith, pointer_item-kind m index middle end h k)

corpus_loop-get :
    (n seed index m image_lo : ℕ) (stack : Option (ℕ × ℕ)) (k : ℕ) (item : SeedValue)
    → get_elem? (corpus_loop n seed index m image_lo stack) k ≡ some item
    → (m' : ℕ) × (item
        ≡ seed_item ((seed + (index + k)) % 2 ^ 64 % 8) m' (index + k) image_lo stack)
unfolding corpus_loop
corpus_loop-get zero seed index m image_lo stack k item h = absurd (cc)
corpus_loop-get (suc n) seed index m image_lo stack zero item h =
    let e : index + 0 ≡ index = omega arith in (mix m, rw e (ground arith))
corpus_loop-get (suc n) seed index m image_lo stack (suc k) item h =
    let e : index + suc k ≡ index + 1 + k = omega arith in
    rw e (corpus_loop-get n seed (index + 1) (mix m) image_lo stack k item h)

corpus_loop-length :
    (n seed index m image_lo : ℕ) (stack : Option (ℕ × ℕ))
    → length (corpus_loop n seed index m image_lo stack) ≡ n
unfolding corpus_loop
corpus_loop-length zero seed index m image_lo stack = refl
corpus_loop-length (suc n) seed index m image_lo stack =
    ap suc (corpus_loop-length n seed (index + 1) (mix m) image_lo stack)

-- As many values as asked for are made; and over a stack that is mapped, the value at a position has
-- the kind that the sum of seed and position selects, so that eight positions in a row cover all
-- eight kinds.
pub seed_argument_corpus-kind :
    (seed count image_lo stack_base stack_size k : ℕ) (item : SeedValue)
    → 0 < stack_size
    → stack_base + stack_size ≤ u64_max
    → get_elem? (seed_argument_corpus seed count image_lo stack_base stack_size) k ≡ some item
    → (item.kind ≡ kind_at ((seed + k) % 8))
      × (length (seed_argument_corpus seed count image_lo stack_base stack_size) ≡ count)
unfolding seed_argument_corpus
seed_argument_corpus-kind seed count image_lo base size k item h o g =
    let first : ℕ = (seed * 0x9e3779b97f4a7c15 + 0x1234567) % 2 ^ 64 in
    let at = corpus_loop-get count seed 0 first image_lo (stack_range base size) k item g in
    let range : stack_range base size ≡ some (base + size / 2, base + size) =
      unfold stack_range in ground arith in
    let place : (seed + (0 + k)) % 2 ^ 64 % 8 ≡ (seed + k) % 8 = omega arith in
    (
      rw (at.1, range, place)
          (seed_item-kind ((seed + k) % 8) at.0 (0 + k) image_lo (base + size / 2) (base + size)
            (omega arith) o),
      corpus_loop-length count seed 0 first image_lo (stack_range base size),
    )

seed_item-pointer :
    (place m index image_lo base size : ℕ)
    → (seed_item place m index image_lo (stack_range base size)).kind ≡ stack_pointer
    → (base ≤ (seed_item place m index image_lo (stack_range base size)).value)
      × ((seed_item place m index image_lo (stack_range base size)).value < base + size)
unfolding seed_item pointer_item stack_range
seed_item-pointer place m index image_lo base size h = (ground arith, ground arith)

-- A value that is marked as a pointer into the stack lies in the stack, for every stack.
pub seed_argument_corpus-pointer :
    (seed count image_lo stack_base stack_size k : ℕ) (item : SeedValue)
    → get_elem? (seed_argument_corpus seed count image_lo stack_base stack_size) k ≡ some item
    → item.kind ≡ stack_pointer
    → (stack_base ≤ item.value) × (item.value < stack_base + stack_size)
unfolding seed_argument_corpus
seed_argument_corpus-pointer seed count image_lo base size k item g h =
    let first : ℕ = (seed * 0x9e3779b97f4a7c15 + 0x1234567) % 2 ^ 64 in
    let at = corpus_loop-get count seed 0 first image_lo (stack_range base size) k item g in
    let place : ℕ = (seed + (0 + k)) % 2 ^ 64 % 8 in
    rw at.1 (seed_item-pointer place at.0 (0 + k) image_lo base size (rw at.1 at h))
