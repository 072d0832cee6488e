-- ===== src/Lifecycle/Activity.antt =====
-- When an observation is active (ActiveEvidencePolicy of src/evidence_lifecycle.cpp).
use viy.Base.{
  ℕ, ◌≡◌, ◌≢◌, ◌⊎◌, ◌↔◌, refl, sym, ap, ◌∙◌, Bool, true, false, not, ◌&&◌, ◌||◌, Option, none, some,
  List, ◌==◌, inl, inr, arith, if◌then◌else◌, ==_iff,
}
use viy.Base.Lex.{equal_bytes, equal_bytes→≡, equal_bytes_self}
use viy.Base.Sets.{member}
use viy.Facts.Enums.{
  ProofKind, proof_kind_code, user_asserted, unknown_proof, observed, static_proof, symbolic_proof,
  cross_run_corroboration, heuristic, imported,
}
use viy.Facts.Schema.{Evidence, AnalysisFact}
use viy.Facts.Canonical.{some_injective}
use viy.Lifecycle.Defs.{
  ActiveEvidencePolicy, lookup, native_producer, deobf_producer, is_user_asserted, provider_active,
  function_active, is_active,
}

-- One of the two providers that look at the whole database.
abbrev pub Complete : List ℕ → Type 0
Complete producer = (producer ≡ native_producer) ⊎ (producer ≡ deobf_producer)

-- An observation of the provider's newest generation, of no function or of one that the provider still has.
abbrev pub OfProvider : ActiveEvidencePolicy → Evidence → Type 0
OfProvider policy e =
    (policy.provider_generation ≢ 0)
    × (e.scope.generation ≡ policy.provider_generation)
    × ((e.scope.function_start ≡ none)
        ⊎ ((start : ℕ) × (e.scope.function_start ≡ some start)
            × (member start policy.provider_functions ≡ true)))

-- An observation of the generation that the function has.
abbrev pub OfFunction : ActiveEvidencePolicy → Evidence → Type 0
OfFunction policy e =
    (start : ℕ) × (e.scope.function_start ≡ some start)
    × (lookup start policy.function_generations ≡ some e.scope.generation)

-- What the user asserted, or what its producer's newest run has seen.
abbrev pub Active : ActiveEvidencePolicy → Evidence → Type 0
Active policy e =
    (e.proof ≡ user_asserted)
    ⊎ (Complete e.producer × OfProvider policy e)
    ⊎ (¬ Complete e.producer × OfFunction policy e)

user_asserted_iff : (proof : ProofKind) → (is_user_asserted proof ≡ true) ↔ (proof ≡ user_asserted)
unfolding proof_kind_code
user_asserted_iff user_asserted = ((λ h. refl), (λ h. refl))
user_asserted_iff unknown_proof = ((λ h. cc), (λ h. cc))
user_asserted_iff observed = ((λ h. cc), (λ h. cc))
user_asserted_iff static_proof = ((λ h. cc), (λ h. cc))
user_asserted_iff symbolic_proof = ((λ h. cc), (λ h. cc))
user_asserted_iff cross_run_corroboration = ((λ h. cc), (λ h. cc))
user_asserted_iff heuristic = ((λ h. cc), (λ h. cc))
user_asserted_iff imported = ((λ h. cc), (λ h. cc))

equal_bytes_iff : (a b : List ℕ) → (equal_bytes a b ≡ true) ↔ (a ≡ b)
equal_bytes_iff a b = (equal_bytes→≡ a b, λ e. ap (equal_bytes a) (sym e) ∙ equal_bytes_self a)

producer_iff :
    (producer : List ℕ)
    → ((equal_bytes producer native_producer || equal_bytes producer deobf_producer) ≡ true)
      ↔ Complete producer
producer_iff producer =
    either (equal_bytes producer native_producer) (equal_bytes producer deobf_producer)
      (equal_bytes_iff producer native_producer) (equal_bytes_iff producer deobf_producer)
  where
    either :
        (a b : Bool) {A B : Type 0} → (a ≡ true) ↔ A → (b ≡ true) ↔ B → ((a || b) ≡ true) ↔ (A ⊎ B)
    either true b f g = ((λ h. inl (f.0 refl)), (λ h. refl))
    either false b f g =
        ((λ h. inr (g.0 h)), (λ s. elim s [ inl x ↦ absurd (clash (f.1 x)) | inr y ↦ g.1 y ]))
      where
        clash : false ≡ true → ⊥
        clash e = cc

provider_start :
    (current generation : ℕ) (functions : List ℕ) (start : Option ℕ)
    → ((not (current == 0 || not (generation == current))
          && elim start [ none ↦ true | some s ↦ member s functions ])
        ≡ true)
      ↔ ((current ≢ 0)
          × (generation ≡ current)
          × ((start ≡ none) ⊎ ((s : ℕ) × (start ≡ some s) × (member s functions ≡ true))))
provider_start current generation functions none =
    ((λ h. ((λ z. ground arith), ground arith, inl refl)), λ h. newest h.0 h.1)
  where
    newest :
        current ≢ 0
        → generation ≡ current
        → (not (current == 0 || not (generation == current)) && true) ≡ true
    newest n e = ground arith
provider_start current generation functions (some s) = (
  (λ h. ((λ z. ground arith), ground arith, inr (s, refl, ground arith))),
  λ h. elim h.2 [
    | inl absent ↦ absurd cc
    | inr (t, same, there) ↦
        newest h.0 h.1 (ap (λ x. member x functions) (some_injective same) ∙ there)
  ],
)
  where
    newest :
        current ≢ 0
        → generation ≡ current
        → member s functions ≡ true
        → (not (current == 0 || not (generation == current)) && member s functions) ≡ true
    newest n e m = ground arith

expected_iff :
    (m : Option ℕ) (generation : ℕ)
    → (elim m [ none ↦ false | some expected ↦ generation == expected ] ≡ true)
      ↔ (m ≡ some generation)
expected_iff none generation = ((λ h. cc), (λ h. cc))
expected_iff (some expected) generation = (
  (λ h. ap some (sym ((==_iff generation expected).0 h))),
  (λ h. (==_iff generation expected).1 (sym (some_injective h))),
)

function_start_iff :
    (generations : List (ℕ × ℕ)) (generation : ℕ) (start : Option ℕ)
    → (elim start [
      | none ↦ false
      | some s ↦ elim (lookup s generations) [
        | none ↦ false
        | some expected ↦ generation == expected
      ]
    ]
        ≡ true)
      ↔ ((s : ℕ) × (start ≡ some s) × (lookup s generations ≡ some generation))
function_start_iff generations generation none = ((λ h. absurd cc), (λ h. absurd cc))
function_start_iff generations generation (some s) = (
  (λ h. (s, refl, (expected_iff (lookup s generations) generation).0 h)),
  λ (t, same, found).
      (expected_iff (lookup s generations) generation).1
        (ap (λ x. lookup x generations) (some_injective same) ∙ found),
)

select_iff :
    (a b c d : Bool) {A B C D : Type 0}
    → (a ≡ true) ↔ A
    → (b ≡ true) ↔ B
    → (c ≡ true) ↔ C
    → (d ≡ true) ↔ D
    → ((if a then true else if b then c else d) ≡ true) ↔ (A ⊎ (B × C) ⊎ (¬ B × D))
select_iff true b c d f g h k = ((λ e. inl (f.0 refl)), (λ s. refl))
select_iff false true c d f g h k = (
  (λ e. inr (inl (g.0 refl, h.0 e))),
  λ s. elim s [
    | inl x ↦ absurd (clash (f.1 x))
    | inr t ↦ elim t [ inl (y, z) ↦ h.1 z | inr (no_b, z) ↦ absurd (no_b (g.0 refl)) ]
  ],
)
  where
    clash : false ≡ true → ⊥
    clash e = cc
select_iff false false c d f g h k = (
  (λ e. inr (inr ((λ y. clash (g.1 y)), k.0 e))),
  λ s. elim s [
    | inl x ↦ absurd (clash (f.1 x))
    | inr t ↦ elim t [ inl (y, z) ↦ absurd (clash (g.1 y)) | inr (no_b, z) ↦ k.1 z ]
  ],
)
  where
    clash : false ≡ true → ⊥
    clash e = cc

pub is_active_iff :
    (policy : ActiveEvidencePolicy) (fact : AnalysisFact)
    → (is_active policy fact ≡ true) ↔ Active policy fact.evidence
unfolding is_active provider_active function_active
is_active_iff policy fact =
    let e = fact.evidence in
    select_iff (is_user_asserted e.proof)
      (equal_bytes e.producer native_producer || equal_bytes e.producer deobf_producer) _ _
      (user_asserted_iff e.proof) (producer_iff e.producer)
      (provider_start policy.provider_generation e.scope.generation policy.provider_functions
        e.scope.function_start)
      (function_start_iff policy.function_generations e.scope.generation e.scope.function_start)
