-- ===== src/Runtime/ConflictFree.antt =====
-- What range_has_conflict decides (src/runtime_enrich_core.cpp).
use viy.Base.{
  ℕ, zero, suc, ◌+◌, ◌-◌, ◌^◌, ◌<◌, ◌≡◌, refl, ap, ◌∙◌, Bool, true, false, not, ◌||◌, Option, none,
  some, List, [], ◌∷◌, arith, length, get_elem?, max, min, All, ltb, ◌==◌, if_rule,
}
use viy.Runtime.Writes.{DataScope, MemoryBytes, same_scope, checked_end}
use viy.Runtime.Conflict.{
  different, bytes_differ, overlap_differs, observation_conflicts, any_conflicts,
  range_has_conflict,
}

-- Where both wrote an address, both wrote the same byte.
unfoldable pub Agrees : ℕ → List ℕ → DataScope → MemoryBytes → Type 0
Agrees addr expected scope o =
    same_scope o.scope scope ≡ true
    → (i j a b : ℕ) → addr + i ≡ o.addr + j
    → get_elem? expected i ≡ some a
    → get_elem? o.bytes j ≡ some b
    → a ≡ b

get_elem_inside : (xs : List ℕ) (i a : ℕ) → get_elem? xs i ≡ some a → i < length xs
get_elem_inside [] i a h = ground arith
get_elem_inside (x ∷ xs) zero a h = omega arith
get_elem_inside (x ∷ xs) (suc i) a h = omega (arith, get_elem_inside xs i a h)

differ_false :
    (n ea addr : ℕ) (expected : List ℕ) (start : ℕ) (bytes : List ℕ) (k : ℕ)
    → bytes_differ n ea addr expected start bytes ≡ false
    → k < n
    → different (get_elem? expected (ea + k - addr)) (get_elem? bytes (ea + k - start)) ≡ false
unfolding bytes_differ
differ_false zero ea addr expected start bytes k h lt = absurd (omega arith)
differ_false (suc n) ea addr expected start bytes zero h lt = ground arith
differ_false (suc n) ea addr expected start bytes (suc k) h lt =
    let e : ea + suc k ≡ suc ea + k = omega arith in
    rw e (differ_false n (suc ea) addr expected start bytes k (ground arith) (omega arith))

same_byte : (o p : Option ℕ) (a b : ℕ) → o ≡ some a → p ≡ some b → different o p ≡ false → a ≡ b
same_byte o p a b f g h = ground arith

overlap_differs-Agrees :
    (addr expected_end : ℕ) (expected : List ℕ) (o : MemoryBytes) (observed_end i j a b : ℕ)
    → expected_end ≡ addr + length expected
    → observed_end ≡ o.addr + length o.bytes
    → overlap_differs addr expected_end expected o observed_end ≡ false
    → addr + i ≡ o.addr + j
    → get_elem? expected i ≡ some a
    → get_elem? o.bytes j ≡ some b
    → a ≡ b
unfolding overlap_differs
overlap_differs-Agrees addr expected_end expected o observed_end i j a b end end' h e f g =
    let k = addr + i - max addr o.addr in
    let in_i = get_elem_inside expected i a f in
    let in_j = get_elem_inside o.bytes j b g in
    let d =
      differ_false (min expected_end observed_end - max addr o.addr) (max addr o.addr) addr expected
        o.addr o.bytes k h (omega arith) in
    let i_is : max addr o.addr + k - addr ≡ i = omega arith in
    let j_is : max addr o.addr + k - o.addr ≡ j = omega arith in
    same_byte _ _ a b (ap (get_elem? expected) i_is ∙ f) (ap (get_elem? o.bytes) j_is ∙ g) d

or_left : (a b : Bool) → (a || b) ≡ false → a ≡ false
or_left a b h = ground arith

or_right : (a b : Bool) → (a || b) ≡ false → b ≡ false
or_right a b h = ground arith

true≢false : true ≡ false → ⊥
true≢false h = ground arith

observation_conflicts-Agrees :
    (addr expected_end : ℕ) (expected : List ℕ) (scope : DataScope) (o : MemoryBytes)
    → expected_end ≡ addr + length expected
    → observation_conflicts addr expected_end expected scope o ≡ false
    → Agrees addr expected scope o
unfolding observation_conflicts overlap_differs checked_end Agrees
observation_conflicts-Agrees addr expected_end expected scope o end h same i j a b e f g =
    if_rule (λ x. x ≡ false → a ≡ b) (not (same_scope o.scope scope) || length o.bytes == 0) _ _
      (λ skipped _. ground (arith, get_elem_inside o.bytes j b g))
      (λ looked.
        if_rule
          (λ (ended : Option ℕ).
            elim ended [
              | none ↦ true
              | some observed_end ↦ overlap_differs addr expected_end expected o observed_end
            ]
              ≡ false
            → a ≡ b)
          (ltb ((2 ^ 64 - 1) - o.addr) (length o.bytes)) _ _ (λ over h'. ground arith)
          (λ fits h'.
            overlap_differs-Agrees addr expected_end expected o (o.addr + length o.bytes) i j a b
              end refl h' e f g))
      h

any_conflicts-Agrees :
    (addr expected_end : ℕ) (expected : List ℕ) (scope : DataScope)
    (observations : List MemoryBytes)
    → expected_end ≡ addr + length expected
    → any_conflicts addr expected_end expected scope observations ≡ false
    → All (Agrees addr expected scope) observations
unfolding any_conflicts
any_conflicts-Agrees addr expected_end expected scope [] end h = tt
any_conflicts-Agrees addr expected_end expected scope (o ∷ observations) end h = (
  observation_conflicts-Agrees addr expected_end expected scope o end (or_left _ _ h),
  any_conflicts-Agrees addr expected_end expected scope observations end (or_right _ _ h),
)

-- Where range_has_conflict reports nothing, every observation of the scope wrote the expected byte
-- at each address of the range that it wrote.
pub range_has_conflict-Agrees :
    (observations : List MemoryBytes) (addr : ℕ) (expected : List ℕ) (scope : DataScope)
    → range_has_conflict observations addr expected scope ≡ false
    → All (Agrees addr expected scope) observations
unfolding range_has_conflict checked_end
range_has_conflict-Agrees observations addr expected scope =
    if_rule (λ x. x ≡ false → All (Agrees addr expected scope) observations) (length expected == 0)
      _ _ (λ _ h. absurd (true≢false h))
      (λ some_bytes.
        if_rule
          (λ (ended : Option ℕ).
            elim ended [
              | none ↦ true
              | some expected_end ↦ any_conflicts addr expected_end expected scope observations
            ]
              ≡ false
            → All (Agrees addr expected scope) observations)
          (ltb ((2 ^ 64 - 1) - addr) (length expected)) _ _ (λ over h. absurd (true≢false h))
          (λ fits h.
            any_conflicts-Agrees addr (addr + length expected) expected scope observations refl h))
