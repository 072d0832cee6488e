-- ===== src/Store/Support.antt =====
-- Corroboration of a record by several runs (is_corroborated of src/evidence_store.cpp).
use viy.Base.{
  ℕ, ◌≤◌, ◌≡◌, ◌≢◌, ◌⊎◌, Bool, ◌&&◌, Option, none, some, List, [], ◌∷◌, length, ltb, leb,
  if◌then◌else◌,
}
use viy.Base.Sets.{insert, insert_text}
use viy.Facts.Schema.{Evidence}
use viy.Store.Defs.{EvidenceRecord}

abbrev pub max_confidence : ℕ
max_confidence = 10000

abbrev pub insert_run : Option ℕ → List ℕ → List ℕ
insert_run none runs = runs
insert_run (some run) runs = insert run runs

-- The loop: the runs and the producers of the observations with the confidence.
unfoldable pub corroborating : ℕ → List Evidence → List ℕ → List (List ℕ) → List ℕ × List (List ℕ)
unfolding insert
corroborating minimum [] runs producers = (runs, producers)
corroborating minimum (e ∷ observations) runs producers =
    if ltb e.confidence minimum
    then corroborating minimum observations runs producers
    else corroborating minimum observations (insert_run e.scope.run_id runs)
        (insert_text e.producer producers)

unfoldable pub is_corroborated : EvidenceRecord → ℕ → ℕ → ℕ → Bool
unfolding corroborating
is_corroborated r minimum_distinct_runs minimum_distinct_producers minimum_each_confidence =
    leb minimum_each_confidence max_confidence
    && (let found = corroborating minimum_each_confidence r.observations [] [] in
        leb minimum_distinct_runs (length (found.0))
        && leb minimum_distinct_producers (length (found.1)))

-- Some element has the property.
unfoldable pub Some {ℓ} : {A : Type ℓ} → (A → Type 0) → List A → Type 0
Some P [] = ⊥
Some P (x ∷ xs) = P x ⊎ Some P xs

-- An observation of this run with this confidence.
abbrev pub OfRun : ℕ → ℕ → Evidence → Type 0
OfRun minimum run e = (minimum ≤ e.confidence) × (e.scope.run_id ≡ some run)

-- Observations of two different runs with this confidence.
unfoldable pub TwoRuns : ℕ → List Evidence → Type 0
unfolding Some
TwoRuns minimum observations =
    (a : ℕ) × (b : ℕ) × (a ≢ b)
    × Some (OfRun minimum a) observations
    × Some (OfRun minimum b) observations
