-- ===== src/Lifecycle/Defs.antt =====
-- The allocator of generations and the active view of the ledger (src/evidence_lifecycle.cpp).
use viy.Base.{
  ℕ, zero, suc, ◌+◌, ◌-◌, ◌^◌, max, Bool, true, false, not, ◌&&◌, ◌||◌, Option, none, some, List,
  [], ◌∷◌, length, ◌==◌, if◌then◌else◌,
}
use viy.Base.Lex.{equal_bytes}
use viy.Base.Sets.{member, insert}
use viy.Facts.Enums.{ProofKind, proof_kind_code, user_asserted}
use viy.Facts.Schema.{Evidence, AnalysisFact}
use viy.Store.Defs.{EvidenceStore, flattened_facts, add}

abbrev pub max_generation : ℕ
max_generation = 2 ^ 64 - 1

pub record EvidenceGenerationAllocator : Type 0 where
  pub used : List ℕ
  pub cursor : ℕ

unfoldable pub insert_generations : List AnalysisFact → List ℕ → List ℕ
unfolding insert
insert_generations [] used = used
insert_generations (fact ∷ facts) used =
    insert_generations facts (insert fact.evidence.scope.generation used)

unfoldable pub largest : List ℕ → ℕ
largest [] = 0
largest (x ∷ used) = max x (largest used)

-- The identity behind one, past the last back to 1.
unfoldable pub next_generation : ℕ → ℕ
next_generation candidate = if candidate == max_generation then 1 else candidate + 1

unfoldable pub seed_cursor : List ℕ → ℕ
unfolding largest next_generation
seed_cursor [] = 1
seed_cursor (x ∷ used) = next_generation (largest (x ∷ used))

unfoldable pub seed : EvidenceStore → EvidenceGenerationAllocator
seed history =
    let used = insert_generations (flattened_facts history) [] in
    record { used = used; cursor = seed_cursor used }

-- The loop on fuel: none if the fuel ends before an identity that is not used.
unfoldable pub find_free : ℕ → ℕ → List ℕ → Option ℕ
unfolding member next_generation
find_free zero candidate used = none
find_free (suc fuel) candidate used =
    let rest = find_free fuel (next_generation candidate) used in
    if member candidate used then rest else some candidate

unfoldable pub first_candidate : EvidenceGenerationAllocator → ℕ
first_candidate allocator = if allocator.cursor == 0 then 1 else allocator.cursor

unfoldable pub allocate : EvidenceGenerationAllocator → Option (ℕ × EvidenceGenerationAllocator)
unfolding first_candidate
allocate allocator =
    elim (find_free (suc (length allocator.used)) (first_candidate allocator) allocator.used) [
      | none ↦ none
      | some candidate ↦ some (
        candidate,
        record { used = insert candidate allocator.used; cursor = next_generation candidate },
      )
    ]

pub record ActiveEvidencePolicy : Type 0 where
  pub provider_generation : ℕ
  pub provider_functions : List ℕ
  pub function_generations : List (ℕ × ℕ)

-- std::map::find
unfoldable pub lookup : ℕ → List (ℕ × ℕ) → Option ℕ
lookup address [] = none
lookup address ((a, generation) ∷ entries) =
    if address == a then some generation else lookup address entries

-- "viy.native.ida"
abbrev pub native_producer : List ℕ
native_producer = 118 ∷ 105 ∷ 121 ∷ 46 ∷ 110 ∷ 97 ∷ 116 ∷ 105 ∷ 118 ∷ 101 ∷ 46 ∷ 105 ∷ 100 ∷ 97 ∷ []

-- "viy.deobf.ida"
abbrev pub deobf_producer : List ℕ
deobf_producer = 118 ∷ 105 ∷ 121 ∷ 46 ∷ 100 ∷ 101 ∷ 111 ∷ 98 ∷ 102 ∷ 46 ∷ 105 ∷ 100 ∷ 97 ∷ []

abbrev pub is_user_asserted : ProofKind → Bool
is_user_asserted proof = proof_kind_code proof == proof_kind_code user_asserted

unfoldable pub provider_active : ActiveEvidencePolicy → Evidence → Bool
unfolding member
provider_active policy e =
    not (policy.provider_generation == 0 || not (e.scope.generation == policy.provider_generation))
    && elim e.scope.function_start [
      | none ↦ true
      | some start ↦ member start policy.provider_functions
    ]

unfoldable pub function_active : ActiveEvidencePolicy → Evidence → Bool
unfolding lookup
function_active policy e = elim e.scope.function_start [
  | none ↦ false
  | some start ↦ elim (lookup start policy.function_generations) [
    | none ↦ false
    | some expected ↦ e.scope.generation == expected
  ]
]

unfoldable pub is_active : ActiveEvidencePolicy → AnalysisFact → Bool
unfolding proof_kind_code provider_active function_active
is_active policy fact =
    if is_user_asserted fact.evidence.proof
    then true
    else if equal_bytes fact.evidence.producer native_producer
        || equal_bytes fact.evidence.producer deobf_producer
    then provider_active policy fact.evidence
    else function_active policy fact.evidence

unfoldable pub add_active : ActiveEvidencePolicy → List AnalysisFact → EvidenceStore → EvidenceStore
unfolding is_active add
add_active policy [] active = active
add_active policy (fact ∷ facts) active =
    add_active policy facts (if is_active policy fact then (add fact active).1 else active)

unfoldable pub view : ActiveEvidencePolicy → EvidenceStore → EvidenceStore
unfolding add_active flattened_facts
view policy history = add_active policy (flattened_facts history) []
