-- ===== src/Lifecycle/Tests.antt =====
-- Small runs (src/evidence_lifecycle.cpp).
use viy.Base.{
  ◌↔◌, true, ℕ, ◌≤◌, ◌<◌, ◌≡◌, ◌≢◌, refl, sym, subst, Option, some, List, [], ◌∷◌, All, length,
  arith,
}
use viy.Facts.Samples.{limits}
use viy.Store.Defs.{flattened_facts, contains}
use viy.Store.Invariant.{IsLedger}
use viy.Store.Samples.{two_runs, two_runs-IsLedger, two_runs_facts}
use viy.Lifecycle.Defs.{
  max_generation, EvidenceGenerationAllocator, next_generation, seed, find_free, first_candidate,
  allocate, ActiveEvidencePolicy, view,
}
use viy.Lifecycle.Fresh.{Fresh}
use viy.Lifecycle.Seed.{generation_of, allocate-seed}
use viy.Lifecycle.Active.{SomeActive, view-Active}
use viy.Base.Sets.{member, insert}

-- The last identity and the first are used: the search goes past both.
abbrev full_turn : EvidenceGenerationAllocator
full_turn = record { used = max_generation ∷ 1 ∷ []; cursor = max_generation }

allocate_turn :
    ◌≡◌ {A = Option (ℕ × EvidenceGenerationAllocator)}
      (allocate full_turn)
      (some (2, record { used = 2 ∷ max_generation ∷ 1 ∷ []; cursor = 3 }))
unfolding allocate find_free first_candidate member insert next_generation
allocate_turn = refl

allocate-seed_example :
    (generation : ℕ) × (after : EvidenceGenerationAllocator) × ◌≡◌
      {A = Option (ℕ × EvidenceGenerationAllocator)}
      (allocate (seed two_runs))
      (some (generation, after))
    × Fresh (seed two_runs) generation after
    × All (λ f. generation_of f ≢ generation) (flattened_facts two_runs)
allocate-seed_example =
    allocate-seed two_runs
      (subst (λ fs. length fs < max_generation) (sym two_runs_facts) (omega arith))
      (subst (λ fs. All (λ f. generation_of f ≤ max_generation) fs) (sym two_runs_facts)
        (omega arith, (omega arith, tt)))

abbrev current : ActiveEvidencePolicy
current = record {
  provider_generation = 0;
  provider_functions = [];
  function_generations = (0x1000, 4) ∷ [];
}

view-Active_example :
    IsLedger limits (view current two_runs)
    × ((payload_key key : List ℕ)
        → (contains payload_key key (view current two_runs) ≡ true)
          ↔ SomeActive current (flattened_facts two_runs) payload_key key)
view-Active_example = view-Active limits current two_runs two_runs-IsLedger
