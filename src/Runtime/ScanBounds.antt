-- ===== src/Runtime/ScanBounds.antt =====
-- Where the strings of a scan lie (collect_string_groups of src/runtime_enrich_core.cpp).
use viy.Base.{
  ℕ, zero, suc, ◌+◌, ◌-◌, ◌^◌, ◌≤◌, ◌<◌, ◌≡◌, refl, Bool, true, false, ◌&&◌, ◌||◌, Option, none,
  some, List, [], ◌∷◌, arith, length, take, drop, min, ltb, ◌==◌, if◌then◌else◌, if_rule,
}
use viy.Runtime.Utf8.{◌>>=◌}
use viy.Runtime.Candidates.{DecodedString, StringScanOptions, best_nul_candidate}
use viy.Runtime.Pascal.{unique_pascal_candidate}
use viy.Runtime.Writes.{MemoryBytes, checked_end}
use viy.Runtime.Scan.{
  overlaps_pointer, selected, accepted, candidate_at, scan, pointer_offsets, scan_observation,
}
use viy.Runtime.Pointers.{AddrRange}

-- A candidate that lies in the observation, has an address for its end, and overlaps no pointer.
unfoldable Fits : List ℕ → ℕ → MemoryBytes → ℕ → DecodedString → Type 0
Fits offsets width o offset c =
    (0 < c.raw_size)
    × (offset + c.raw_size ≤ length o.bytes)
    × (o.addr + offset + c.raw_size < 2 ^ 64)
    × (overlaps_pointer offsets width offset c.raw_size ≡ false)

-- The result, when there is one, satisfies a predicate.
abbrev IfSome : (DecodedString → Type 0) → Option DecodedString → Type 0
IfSome Q none = Unit
IfSome Q (some c) = Q c

accepted-Fits :
    (offsets : List ℕ) (width : ℕ) (o : MemoryBytes) (offset : ℕ) (candidate : DecodedString)
    → offset < length o.bytes
    → IfSome (Fits offsets width o offset) (accepted offsets width o offset candidate)
unfolding accepted checked_end Fits
accepted-Fits offsets width o offset candidate inside =
    if_rule (IfSome (Fits offsets width o offset))
      (candidate.raw_size == 0
        || ltb (length o.bytes - offset) candidate.raw_size
        || ltb ((2 ^ 64 - 1) - o.addr) offset)
      _ _ (λ bad. tt)
      (λ good.
        if_rule
          (λ (e : Option ℕ). IfSome (Fits offsets width o offset) (elim e [
            | none ↦ none
            | some candidate_end ↦
                if overlaps_pointer offsets width offset candidate.raw_size
                then none
                else some candidate
          ]))
          (ltb ((2 ^ 64 - 1) - (o.addr + offset)) candidate.raw_size) _ _ (λ over. tt)
          (λ fits.
            if_rule (IfSome (Fits offsets width o offset))
              (overlaps_pointer offsets width offset candidate.raw_size) _ _ (λ overlap. tt)
              (λ free. (ground arith, ground arith, ground arith, free))))

candidate_at-Fits :
    (options : StringScanOptions) (offsets : List ℕ) (o : MemoryBytes) (offset : ℕ)
    → offset < length o.bytes
    → IfSome (Fits offsets options.pointer_width o offset) (candidate_at options offsets o offset)
unfolding candidate_at
candidate_at-Fits options offsets o offset inside =
    let probe =
      take (min options.max_candidate_bytes (length o.bytes - offset)) (drop offset o.bytes) in
    if_rule (IfSome (Fits offsets options.pointer_width o offset))
      (overlaps_pointer offsets options.pointer_width offset 1) _ _ (λ pointer. tt)
      (λ free.
        bound (selected (best_nul_candidate probe options) (unique_pascal_candidate probe options)))
  where
    bound :
        (chosen : Option DecodedString)
        → IfSome
            (Fits offsets options.pointer_width o offset)
            (chosen >>= accepted offsets options.pointer_width o offset)
    bound none = tt
    bound (some c) = accepted-Fits offsets options.pointer_width o offset c inside

-- Strings one behind the other, from an offset on.
unfoldable pub Strings : List ℕ → ℕ → MemoryBytes → ℕ → List (ℕ × DecodedString) → Type 0
unfolding Fits
Strings offsets width o from [] = Unit
Strings offsets width o from ((offset, c) ∷ found) =
    (from ≤ offset)
    × Fits offsets width o offset c
    × Strings offsets width o (offset + c.raw_size) found

scan_step :
    (fuel : ℕ) (options : StringScanOptions) (offsets : List ℕ) (o : MemoryBytes)
    (from offset count : ℕ) (result : Option DecodedString)
    → ((from offset count : ℕ)
        → from ≤ offset
        → Strings offsets options.pointer_width o from (scan fuel options offsets o offset count))
    → from ≤ offset
    → IfSome (Fits offsets options.pointer_width o offset) result
    → Strings offsets options.pointer_width o from (elim result [
      | none ↦ scan fuel options offsets o (suc offset) count
      | some c ↦ (offset, c) ∷ scan fuel options offsets o (offset + c.raw_size) (suc count)
    ])
unfolding Strings
scan_step fuel options offsets o from offset count none rest le fits =
    rest from (suc offset) count (omega arith)
scan_step fuel options offsets o from offset count (some c) rest le fits =
    (le, fits, rest (offset + c.raw_size) (offset + c.raw_size) (suc count) (omega arith))

scan_more :
    (fuel : ℕ) (options : StringScanOptions) (offsets : List ℕ) (o : MemoryBytes)
    (from offset count : ℕ) (more : Bool)
    → (ltb offset (length o.bytes) && ltb count options.max_candidates_per_write) ≡ more
    → ((from offset count : ℕ)
        → from ≤ offset
        → Strings offsets options.pointer_width o from (scan fuel options offsets o offset count))
    → from ≤ offset
    → Strings offsets options.pointer_width o from (elim more [
      | false ↦ []
      | true ↦ elim (candidate_at options offsets o offset) [
        | none ↦ scan fuel options offsets o (suc offset) count
        | some c ↦ (offset, c) ∷ scan fuel options offsets o (offset + c.raw_size) (suc count)
      ]
    ])
unfolding Strings
scan_more fuel options offsets o from offset count false e rest le = tt
scan_more fuel options offsets o from offset count true e rest le =
    scan_step fuel options offsets o from offset count (candidate_at options offsets o offset) rest
      le (candidate_at-Fits options offsets o offset (ground arith))

scan-Strings :
    (fuel : ℕ) (options : StringScanOptions) (offsets : List ℕ) (o : MemoryBytes)
    (from offset count : ℕ)
    → from ≤ offset
    → Strings offsets options.pointer_width o from (scan fuel options offsets o offset count)
unfolding scan Strings
scan-Strings zero options offsets o from offset count le = tt
scan-Strings (suc fuel) options offsets o from offset count le =
    scan_more fuel options offsets o from offset count
      (ltb offset (length o.bytes) && ltb count options.max_candidates_per_write) refl
      (λ a b n h. scan-Strings fuel options offsets o a b n h) le

-- The strings of an observation lie in it one behind the other without overlap; none is empty,
-- runs past 2 ^ 64 or overlaps a pointer word.
pub scan_observation-Strings :
    (options : StringScanOptions) (mapped : List AddrRange) (o : MemoryBytes)
    → Strings
        (pointer_offsets options mapped o)
        options.pointer_width
        o
        0
        (scan_observation options mapped o)
unfolding scan_observation
scan_observation-Strings options mapped o =
    scan-Strings (length o.bytes) options (pointer_offsets options mapped o) o 0 0 0 (omega arith)
