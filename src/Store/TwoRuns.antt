-- ===== src/Store/TwoRuns.antt =====
-- When a record is corroborated by two runs (is_corroborated of src/evidence_store.cpp).
use viy.Base.{
  ℕ, ◌≤◌, ◌≡◌, ◌≢◌, ◌↔◌, ◌⊎◌, inl, inr, sym, ap, true, false, Option, none, some, List, [], ◌∷◌,
  length, ltb, arith, Bool-cases, if_rule, ◌==◌, ==_iff,
}
use viy.Base.Sets.{
  member, insert, insert_text, has_text, member-insert, member-insert_same, two_members,
}
use viy.Facts.Schema.{Evidence}
use viy.Store.Defs.{EvidenceRecord}
use viy.Store.Support.{
  max_confidence, insert_run, corroborating, is_corroborated, Some, OfRun, TwoRuns,
}

-- No number stands twice.
unfoldable Distinct : List ℕ → Type 0
Distinct [] = Unit
Distinct (x ∷ xs) = (member x xs ≡ false) × Distinct xs

insert_run-Distinct :
    (run : Option ℕ) (runs : List ℕ) → Distinct runs → Distinct (insert_run run runs)
unfolding insert Distinct
insert_run-Distinct none runs d = d
insert_run-Distinct (some run) runs d =
    if_rule Distinct (member run runs) _ _ (λ there. d) (λ new. (new, d))

corroborating-Distinct :
    (minimum : ℕ) (observations : List Evidence) (runs : List ℕ) (producers : List (List ℕ))
    → Distinct runs
    → Distinct (corroborating minimum observations runs producers).0
unfolding corroborating
corroborating-Distinct minimum [] runs producers d = d
corroborating-Distinct minimum (e ∷ observations) runs producers d =
    if_rule (λ (r : List ℕ × List (List ℕ)). Distinct r.0) (ltb e.confidence minimum) _ _
      (λ low. corroborating-Distinct minimum observations runs producers d)
      (λ high.
        corroborating-Distinct minimum observations (insert_run e.scope.run_id runs)
          (insert_text e.producer producers) (insert_run-Distinct e.scope.run_id runs d))

member_first :
    (x y : ℕ) (used : List ℕ) → member x (y ∷ used) ≡ true → (x ≡ y) ⊎ (member x used ≡ true)
unfolding member
member_first x y used h = elim (Bool-cases (x == y)) [
  | inl same ↦ inl ((==_iff x y).0 same)
  | inr other ↦ inr (ground (arith, h, other))
]

member-insert_run :
    (x : ℕ) (run : Option ℕ) (runs : List ℕ)
    → member x (insert_run run runs) ≡ true
    → (run ≡ some x) ⊎ (member x runs ≡ true)
unfolding insert
member-insert_run x none runs h = inr h
member-insert_run x (some run) runs h =
    if_rule (λ (rs : List ℕ). member x rs ≡ true → (some run ≡ some x) ⊎ (member x runs ≡ true))
      (member run runs) runs (run ∷ runs) (λ there k. inr k)
      (λ new k. elim (member_first x run runs k) [
        | inl same ↦ inl (ap some (sym same))
        | inr old ↦ inr old
      ])
      h

-- Every run that was collected is that of an observation.
corroborating-Some :
    (minimum x : ℕ) (observations : List Evidence) (runs : List ℕ) (producers : List (List ℕ))
    → member x (corroborating minimum observations runs producers).0 ≡ true
    → Some (OfRun minimum x) observations ⊎ (member x runs ≡ true)
unfolding corroborating Some
corroborating-Some minimum x [] runs producers h = inr h
corroborating-Some minimum x (e ∷ observations) runs producers h =
    if_rule
      (λ (r : List ℕ × List (List ℕ)).
        member x r.0 ≡ true → Some (OfRun minimum x) (e ∷ observations) ⊎ (member x runs ≡ true))
      (ltb e.confidence minimum) (corroborating minimum observations runs producers)
      (corroborating minimum observations (insert_run e.scope.run_id runs)
        (insert_text e.producer producers))
      (λ low k. elim (corroborating-Some minimum x observations runs producers k) [
        | inl later ↦ inl (inr later)
        | inr old ↦ inr old
      ])
      (λ high k.
        elim (corroborating-Some minimum x observations (insert_run e.scope.run_id runs)
          (insert_text e.producer producers) k) [
            | inl later ↦ inl (inr later)
            | inr old ↦ elim (member-insert_run x e.scope.run_id runs old) [
              | inl here ↦ inl (inl (ground (arith, high), here))
              | inr older ↦ inr older
            ]
          ])
      h

two_of :
    (runs : List ℕ)
    → Distinct runs
    → 2 ≤ length runs
    → (a : ℕ) × (b : ℕ) × (a ≢ b) × (member a runs ≡ true) × (member b runs ≡ true)
unfolding Distinct member
two_of [] d h = absurd (omega arith)
two_of (x ∷ []) d h = absurd (omega arith)
two_of (x ∷ y ∷ runs) (new, d) h =
    (x, y, (λ e. ground (arith, new, (==_iff x y).1 e)), ground arith, ground arith)

member_kept :
    (minimum x : ℕ) (observations : List Evidence) (runs : List ℕ) (producers : List (List ℕ))
    → member x runs ≡ true
    → member x (corroborating minimum observations runs producers).0 ≡ true
unfolding corroborating
member_kept minimum x [] runs producers h = h
member_kept minimum x (e ∷ observations) runs producers h =
    if_rule (λ (r : List ℕ × List (List ℕ)). member x r.0 ≡ true) (ltb e.confidence minimum) _ _
      (λ low. member_kept minimum x observations runs producers h)
      (λ high.
        member_kept minimum x observations (insert_run e.scope.run_id runs)
          (insert_text e.producer producers) (kept e.scope.run_id))
  where
    kept : (run : Option ℕ) → member x (insert_run run runs) ≡ true
    kept none = h
    kept (some run) = member-insert x run runs h

-- The run and the producer of an observation with the confidence are collected.
run_collected :
    (minimum x : ℕ) (observations : List Evidence) (runs : List ℕ) (producers : List (List ℕ))
    → Some (OfRun minimum x) observations
    → member x (corroborating minimum observations runs producers).0 ≡ true
unfolding corroborating Some
run_collected minimum x [] runs producers h = absurd h
run_collected minimum x (e ∷ observations) runs producers (inl (enough, here)) = rw high (
    member_kept minimum x observations (insert_run e.scope.run_id runs)
      (insert_text e.producer producers) inserted)
  where
    high : ltb e.confidence minimum ≡ false
    high = ground (arith, enough)

    inserted : member x (insert_run e.scope.run_id runs) ≡ true
    inserted = rw here (member-insert_same x runs)
run_collected minimum x (e ∷ observations) runs producers (inr later) =
    if_rule (λ (r : List ℕ × List (List ℕ)). member x r.0 ≡ true) (ltb e.confidence minimum) _ _
      (λ low. run_collected minimum x observations runs producers later)
      (λ high.
        run_collected minimum x observations (insert_run e.scope.run_id runs)
          (insert_text e.producer producers) later)

length-insert_text : (x : List ℕ) (texts : List (List ℕ)) → 1 ≤ length (insert_text x texts)
length-insert_text x [] = omega arith
length-insert_text x (y ∷ texts) =
    if_rule (λ (ts : List (List ℕ)). 1 ≤ length ts) (has_text x (y ∷ texts)) _ _
      (λ there. omega arith) (λ new. omega arith)

producers_kept :
    (minimum : ℕ) (observations : List Evidence) (runs : List ℕ) (producers : List (List ℕ))
    → 1 ≤ length producers
    → 1 ≤ length (corroborating minimum observations runs producers).1
unfolding corroborating
producers_kept minimum [] runs producers h = h
producers_kept minimum (e ∷ observations) runs producers h =
    if_rule (λ (r : List ℕ × List (List ℕ)). 1 ≤ length r.1) (ltb e.confidence minimum) _ _
      (λ low. producers_kept minimum observations runs producers h)
      (λ high.
        producers_kept minimum observations (insert_run e.scope.run_id runs)
          (insert_text e.producer producers) (length-insert_text e.producer producers))

producer_collected :
    (minimum x : ℕ) (observations : List Evidence) (runs : List ℕ) (producers : List (List ℕ))
    → Some (OfRun minimum x) observations
    → 1 ≤ length (corroborating minimum observations runs producers).1
unfolding corroborating Some
producer_collected minimum x [] runs producers h = absurd h
producer_collected minimum x (e ∷ observations) runs producers (inl (enough, here)) = rw high (
    producers_kept minimum observations (insert_run e.scope.run_id runs)
      (insert_text e.producer producers) (length-insert_text e.producer producers))
  where
    high : ltb e.confidence minimum ≡ false
    high = ground (arith, enough)
producer_collected minimum x (e ∷ observations) runs producers (inr later) =
    if_rule (λ (r : List ℕ × List (List ℕ)). 1 ≤ length r.1) (ltb e.confidence minimum) _ _
      (λ low. producer_collected minimum x observations runs producers later)
      (λ high.
        producer_collected minimum x observations (insert_run e.scope.run_id runs)
          (insert_text e.producer producers) later)

-- At a confidence of at most 10000, a record is corroborated by two runs and one producer exactly
-- when it has observations of two different runs that both have the confidence.
pub is_corroborated-TwoRuns :
    (r : EvidenceRecord) (minimum : ℕ)
    → minimum ≤ max_confidence
    → (is_corroborated r 2 1 minimum ≡ true) ↔ TwoRuns minimum r.observations
unfolding is_corroborated TwoRuns member Distinct
is_corroborated-TwoRuns r minimum le =
    let runs = (corroborating minimum r.observations [] []).0 in
    let producers = (corroborating minimum r.observations [] []).1 in
    (
      λ h.
          let enough : 2 ≤ length runs = ground (arith, h) in
          let (a, b, apart, in_a, in_b) =
            two_of runs (corroborating-Distinct minimum r.observations [] [] tt) enough in
          (a, b, apart, found a in_a, found b in_b),
      λ t.
          let (a, b, apart, has_a, has_b) = t in
          let enough : 2 ≤ length runs =
            two_members a b runs apart (run_collected minimum a r.observations [] [] has_a)
              (run_collected minimum b r.observations [] [] has_b) in
          let one : 1 ≤ length producers =
            producer_collected minimum a r.observations [] [] has_a in
          ground (arith, le, enough, one),
    )
  where
    no_member : (x : ℕ) → member x [] ≡ true → ⊥
    no_member x h = cc

    found :
        (x : ℕ)
        → member x (corroborating minimum r.observations [] []).0 ≡ true
        → Some (OfRun minimum x) r.observations
    found x h = elim (corroborating-Some minimum x r.observations [] [] h) [
      | inl there ↦ there
      | inr nowhere ↦ absurd (no_member x nowhere)
    ]
