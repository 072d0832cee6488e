-- ===== src/Lifecycle/Seed.antt =====
-- Generations of a restored ledger are never given again (src/evidence_lifecycle.cpp).
use viy.Base.{
  ℕ, ◌+◌, ◌≤◌, ◌<◌, ◌≡◌, ◌≢◌, sym, ap, ◌∙◌, true, false, Option, some, List, [], ◌∷◌, All, length,
  if_rule, arith,
}
use viy.Facts.Schema.{AnalysisFact}
use viy.Store.Defs.{EvidenceStore, flattened_facts}
use viy.Lifecycle.Defs.{
  max_generation, EvidenceGenerationAllocator, insert_generations, largest, next_generation,
  seed_cursor, seed, allocate,
}
use viy.Lifecycle.Fresh.{Fresh, allocate-Fresh}
use viy.Base.Sets.{member, insert, member-insert, member-insert_same, length-insert}

abbrev pub generation_of : AnalysisFact → ℕ
generation_of fact = fact.evidence.scope.generation

member-insert_generations :
    (x : ℕ) (facts : List AnalysisFact) (used : List ℕ)
    → member x used ≡ true
    → member x (insert_generations facts used) ≡ true
unfolding insert_generations
member-insert_generations x [] used h = h
member-insert_generations x (f ∷ facts) used h =
    member-insert_generations x facts (insert (generation_of f) used)
      (member-insert x (generation_of f) used h)

generations_inserted :
    (facts : List AnalysisFact) (used : List ℕ)
    → All (λ f. member (generation_of f) (insert_generations facts used) ≡ true) facts
unfolding insert_generations
generations_inserted [] used = tt
generations_inserted (f ∷ facts) used = (
  member-insert_generations (generation_of f) facts (insert (generation_of f) used)
      (member-insert_same (generation_of f) used),
  generations_inserted facts (insert (generation_of f) used),
)

length-insert_generations :
    (facts : List AnalysisFact) (used : List ℕ)
    → length (insert_generations facts used) ≤ length facts + length used
unfolding insert_generations
length-insert_generations [] used = omega arith
length-insert_generations (f ∷ facts) used =
    let rest = length-insert_generations facts (insert (generation_of f) used) in
    let one = length-insert (generation_of f) used in omega arith

abbrev AllBounded : List ℕ → Type 0
AllBounded used = All (λ x. x ≤ max_generation) used

insert-AllBounded :
    (x : ℕ) (used : List ℕ) → x ≤ max_generation → AllBounded used → AllBounded (insert x used)
unfolding insert
insert-AllBounded x used h a = if_rule AllBounded (member x used) _ _ (λ there. a) (λ new. (h, a))

insert_generations-AllBounded :
    (facts : List AnalysisFact) (used : List ℕ)
    → All (λ f. generation_of f ≤ max_generation) facts
    → AllBounded used
    → AllBounded (insert_generations facts used)
unfolding insert_generations
insert_generations-AllBounded [] used h a = a
insert_generations-AllBounded (f ∷ facts) used (h, hs) a =
    insert_generations-AllBounded facts (insert (generation_of f) used) hs
      (insert-AllBounded (generation_of f) used h a)

largest_le : (used : List ℕ) → AllBounded used → largest used ≤ max_generation
unfolding largest
largest_le [] a = omega arith
largest_le (x ∷ used) (h, a) = ground (arith, largest_le used a)

next_generation_le : (c : ℕ) → c ≤ max_generation → next_generation c ≤ max_generation
unfolding next_generation
next_generation_le c h = ground arith

seed_cursor_le : (used : List ℕ) → AllBounded used → seed_cursor used ≤ max_generation
unfolding seed_cursor
seed_cursor_le [] a = omega arith
seed_cursor_le (x ∷ used) a = next_generation_le (largest (x ∷ used)) (largest_le (x ∷ used) a)

apart :
    (g : ℕ) (used : List ℕ) (facts : List AnalysisFact)
    → member g used ≡ false
    → All (λ f. member (generation_of f) used ≡ true) facts
    → All (λ f. generation_of f ≢ g) facts
apart g used [] h a = tt
apart g used (f ∷ facts) h (b, a) =
    (λ e. clash (sym b ∙ ap (λ x. member x used) e ∙ h), apart g used facts h a)
  where
    clash : true ≡ false → ⊥
    clash e = cc

-- When a ledger of fewer observations than there are identities is restored, the first generation
-- that is allocated is found, and is that of no observation of the ledger, also where one has the
-- last identity.
pub allocate-seed :
    (history : EvidenceStore)
    → length (flattened_facts history) < max_generation
    → All (λ f. generation_of f ≤ max_generation) (flattened_facts history)
    → (generation : ℕ) × (after : EvidenceGenerationAllocator) × ◌≡◌
        {A = Option (ℕ × EvidenceGenerationAllocator)}
        (allocate (seed history))
        (some (generation, after))
      × Fresh (seed history) generation after
      × All (λ f. generation_of f ≢ generation) (flattened_facts history)
unfolding seed Fresh
allocate-seed history few bounded =
    let facts = flattened_facts history in
    let size = length-insert_generations facts [] in
    let (g, after, e, fresh) =
      allocate-Fresh (seed history)
        (seed_cursor_le (insert_generations facts [])
          (insert_generations-AllBounded facts [] bounded tt))
        (omega arith) in
    (
      g,
      after,
      e,
      fresh,
      apart g (insert_generations facts []) facts fresh.1 (generations_inserted facts []),
    )
