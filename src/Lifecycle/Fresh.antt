-- ===== src/Lifecycle/Fresh.antt =====
-- An allocated generation is new (src/evidence_lifecycle.cpp).
use viy.Base.{
  ℕ, zero, suc, ◌+◌, ◌-◌, ◌≤◌, ◌<◌, ◌≡◌, ◌≢◌, refl, sym, ap, ◌∙◌, subst, Bool, true, false, Option,
  none, some, List, ◌∷◌, length, leb, if◌then◌else◌, if_rule, arith, Option-cases, inl, inr,
}
use viy.Lifecycle.Defs.{
  max_generation, EvidenceGenerationAllocator, next_generation, find_free, first_candidate,
  allocate,
}
use viy.Lifecycle.Pigeonhole.{pigeonhole}
use viy.Base.Sets.{member, insert}

-- The candidate that the search tries after `k` others.
unfoldable candidate_after : ℕ → ℕ → ℕ
candidate_after c k = if leb (c + k) max_generation then c + k else c + k - max_generation

unfoldable pub IsGeneration : ℕ → Type 0
IsGeneration c = (1 ≤ c) × (c ≤ max_generation)

next_generation-IsGeneration : (c : ℕ) → IsGeneration c → IsGeneration (next_generation c)
unfolding IsGeneration next_generation
next_generation-IsGeneration c h = ground arith

candidate_after_next :
    (c k : ℕ)
    → IsGeneration c
    → suc k < max_generation
    → candidate_after (next_generation c) k ≡ candidate_after c (suc k)
unfolding IsGeneration next_generation candidate_after
candidate_after_next c k h l = ground arith

candidate_after_different :
    (c i j : ℕ)
    → IsGeneration c
    → i < j
    → j < max_generation
    → candidate_after c j ≢ candidate_after c i
unfolding IsGeneration candidate_after
candidate_after_different c i j h l m = ground arith

candidate_after_zero : (c : ℕ) → IsGeneration c → candidate_after c 0 ≡ c
unfolding IsGeneration candidate_after
candidate_after_zero c h = ground arith

none_both :
    (b : Bool) (m : Option ℕ) (c : ℕ) → (if b then m else some c) ≡ none → (b ≡ true) × (m ≡ none)
none_both true m c h = (refl, h)
none_both false m c h = cc

all_used :
    (fuel c : ℕ) (used : List ℕ)
    → IsGeneration c
    → fuel ≤ max_generation
    → find_free fuel c used ≡ none
    → (k : ℕ) → k < fuel
    → member (candidate_after c k) used ≡ true
unfolding find_free
all_used zero c used g le h k l = absurd (omega arith)
all_used (suc fuel) c used g le h zero l =
    ap (λ d. member d used) (candidate_after_zero c g)
    ∙ (none_both (member c used) (find_free fuel (next_generation c) used) c h).0
all_used (suc fuel) c used g le h (suc k) l =
    ap (λ d. member d used) (sym (candidate_after_next c k g (omega arith)))
    ∙ all_used fuel (next_generation c) used (next_generation-IsGeneration c g) (omega arith)
        (none_both (member c used) (find_free fuel (next_generation c) used) c h).1 k (omega arith)

find_free-unused :
    (fuel c d : ℕ) (used : List ℕ)
    → IsGeneration c
    → find_free fuel c used ≡ some d
    → IsGeneration d × (member d used ≡ false)
unfolding find_free
find_free-unused zero c d used g h = absurd cc
find_free-unused (suc fuel) c d used g h =
    if_rule (λ (m : Option ℕ). m ≡ some d → IsGeneration d × (member d used ≡ false))
      (member c used) (find_free fuel (next_generation c) used) (some c)
      (λ taken e.
        find_free-unused fuel (next_generation c) d used (next_generation-IsGeneration c g) e)
      (λ free e.
        let same : c ≡ d = some_same e in
        (subst IsGeneration same g, subst (λ x. member x used ≡ false) same free))
      h
  where
    some_same : {a b : ℕ} → some a ≡ some b → a ≡ b
    some_same e = cc

find_free_found :
    (c : ℕ) (used : List ℕ)
    → IsGeneration c
    → length used < max_generation
    → (d : ℕ) × (find_free (suc (length used)) c used ≡ some d)
      × IsGeneration d
      × (member d used ≡ false)
find_free_found c used g le = elim (Option-cases (find_free (suc (length used)) c used)) [
  | inl e ↦
      let too_many =
        pigeonhole (suc (length used)) (candidate_after c) used
          (all_used (suc (length used)) c used g (omega arith) e)
          (λ i j h k. candidate_after_different c i j g h (omega arith)) in
      absurd (omega arith)
  | inr (d, e) ↦
      let (h, free) = find_free-unused (suc (length used)) c d used g e in (d, e, h, free)
]

first_candidate-IsGeneration :
    (allocator : EvidenceGenerationAllocator)
    → allocator.cursor ≤ max_generation
    → IsGeneration (first_candidate allocator)
unfolding first_candidate IsGeneration
first_candidate-IsGeneration allocator h = ground arith

-- What an allocation gives: a generation from 1 to the last that was not used, and an allocator
-- that has it as used and keeps the rest.
unfoldable pub Fresh : EvidenceGenerationAllocator → ℕ → EvidenceGenerationAllocator → Type 0
unfolding IsGeneration member
Fresh before generation after =
    IsGeneration generation
    × (member generation before.used ≡ false)
    × (after.used ≡ generation ∷ before.used)
    × (after.cursor ≤ max_generation)

-- With fewer identities in use than there are, the search for a free generation ends within as many
-- rounds as identities are in use and one more, and gives a generation that is not zero, was not in
-- use and is recorded as used from then on.
pub allocate-Fresh :
    (allocator : EvidenceGenerationAllocator)
    → allocator.cursor ≤ max_generation
    → length allocator.used < max_generation
    → (generation : ℕ) × (after : EvidenceGenerationAllocator) × ◌≡◌
        {A = Option (ℕ × EvidenceGenerationAllocator)}
        (allocate allocator)
        (some (generation, after))
      × Fresh allocator generation after
unfolding allocate Fresh insert
allocate-Fresh allocator small few =
    let (d, e, g, free) =
      find_free_found (first_candidate allocator) allocator.used
        (first_candidate-IsGeneration allocator small) few in
    (
      d,
      record { used = insert d allocator.used; cursor = next_generation d },
      rw (e, allocate) refl,
      (g, free, rw (free, insert) refl, (next_generation-IsGeneration d g).1),
    )
