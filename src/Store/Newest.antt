-- ===== src/Store/Newest.antt =====
-- The newest generation of a scan, and that the first pass of latest_generation_view finds it
-- (src/evidence_store.cpp).
use viy.Base.{
  ℕ, max, ◌≡◌, refl, sym, ap, ◌∙◌, Bool, true, false, ◌&&◌, Option, none, some, List, [], ◌∷◌, ◌++◌,
  leb, ◌==◌, ==_iff, if◌then◌else◌, arith, Bool-cases, inl, inr,
}
use viy.Base.Lex.{equal_bytes, equal_bytes→≡}
use viy.Facts.Schema.{Evidence, FactPayload, AnalysisFact}
use viy.Store.Defs.{EvidenceStore, facts_of, flattened_facts}
use viy.Store.Latest.{
  Snapshot, is_snapshot, note_generation, find_latest, note_evidence, note_observations,
  latest_generations,
}

-- The observation's generation, if it is of this scan.
unfoldable pub generation_in : List ℕ → ℕ → Evidence → Option ℕ
generation_in producer start e = elim e.scope.function_start [
  | none ↦ none
  | some a ↦ if equal_bytes e.producer producer && a == start then some e.scope.generation else none
]

-- None of the facts is of this scan and newer.
unfoldable pub none_newer : List ℕ → ℕ → ℕ → List AnalysisFact → Bool
unfolding generation_in
none_newer producer start generation [] = true
none_newer producer start generation (f ∷ facts) =
    elim (generation_in producer start f.evidence) [ none ↦ true | some g ↦ leb g generation ]
    && none_newer producer start generation facts

-- Is the fact of no function, or of the newest scan of its producer over its function?
unfoldable pub is_latest : List AnalysisFact → AnalysisFact → Bool
unfolding none_newer
is_latest all fact = elim fact.evidence.scope.function_start [
  | none ↦ true
  | some start ↦ none_newer fact.evidence.producer start fact.evidence.scope.generation all
]

unfoldable pub latest_facts : List AnalysisFact → List AnalysisFact → List AnalysisFact
unfolding is_latest
latest_facts all [] = []
latest_facts all (f ∷ facts) =
    let rest = latest_facts all facts in if is_latest all f then f ∷ rest else rest

-- The greater of two generations, where there is one.
unfoldable pub join : Option ℕ → Option ℕ → Option ℕ
join none b = b
join (some a) none = some a
join (some a) (some b) = some (max a b)

join_assoc : (a b c : Option ℕ) → join (join a b) c ≡ join a (join b c)
unfolding join
join_assoc none b c = refl
join_assoc (some a) none c = refl
join_assoc (some a) (some b) none = refl
join_assoc (some a) (some b) (some c) = ap some (ground arith)

-- The newest generation of a scan among the facts.
unfoldable pub newest : List ℕ → ℕ → List AnalysisFact → Option ℕ
newest producer start [] = none
newest producer start (f ∷ facts) =
    join (generation_in producer start f.evidence) (newest producer start facts)

join-none : (a : Option ℕ) → join a none ≡ a
unfolding join
join-none none = refl
join-none (some a) = refl

same_scan :
    (p q : List ℕ) (a b : ℕ) (s : Snapshot)
    → is_snapshot q b s ≡ true
    → (equal_bytes q p && b == a) ≡ is_snapshot p a s
same_scan p q a b s h =
    let e : s.producer ≡ q = equal_bytes→≡ s.producer q (ground (arith, h)) in
    let f : s.start ≡ b = (==_iff s.start b).0 (ground (arith, h)) in
    λ i. equal_bytes (sym e i) p && sym f i == a

other_scan :
    (p q : List ℕ) (a b : ℕ) (s : Snapshot)
    → is_snapshot q b s ≡ false
    → is_snapshot p a s ≡ true
    → (equal_bytes q p && b == a) ≡ false
other_scan p q a b s h k = elim (Bool-cases (equal_bytes q p && b == a)) [
  | inr different ↦ different
  | inl same ↦
      let e : q ≡ p = equal_bytes→≡ q p (ground (arith, same)) in
      let f : b ≡ a = (==_iff b a).0 (ground (arith, same)) in
      absurd (clash (sym k ∙ (λ i. equal_bytes s.producer (sym e i) && s.start == sym f i) ∙ h))
]
  where
    clash : true ≡ false → ⊥
    clash x = cc

find_latest-note_generation :
    (p : List ℕ) (a : ℕ) (q : List ℕ) (b g : ℕ) (latest : List Snapshot)
    → find_latest p a (note_generation q b g latest)
      ≡ join (find_latest p a latest) (if equal_bytes q p && b == a then some g else none)
unfolding find_latest note_generation join
find_latest-note_generation p a q b g [] = refl
find_latest-note_generation p a q b g (s ∷ latest) = elim (Bool-cases (is_snapshot q b s)) [
  | inl there ↦ elim (Bool-cases (is_snapshot p a s)) [
    | inl here ↦ rw (there, same_scan p q a b s there, here) refl
    | inr elsewhere ↦
        rw (there, same_scan p q a b s there, elsewhere) (sym (join-none (find_latest p a latest)))
  ]
  | inr new ↦ elim (Bool-cases (is_snapshot p a s)) [
    | inl here ↦ rw (new, other_scan p q a b s new here, here) refl
    | inr elsewhere ↦ rw (new, elsewhere) (find_latest-note_generation p a q b g latest)
  ]
]

find_latest-note_evidence :
    (p : List ℕ) (a : ℕ) (e : Evidence) (latest : List Snapshot)
    → find_latest p a (note_evidence e latest) ≡ join (find_latest p a latest) (generation_in p a e)
unfolding generation_in
find_latest-note_evidence p a e latest = by_start (e.scope.function_start)
  where
    by_start :
        (m : Option ℕ)
        → find_latest p a (elim m [
          | none ↦ latest
          | some start ↦ note_generation e.producer start e.scope.generation latest
        ])
          ≡ join (find_latest p a latest) (elim m [
            | none ↦ none
            | some b ↦ if equal_bytes e.producer p && b == a then some e.scope.generation else none
          ])
    by_start none = sym (join-none (find_latest p a latest))
    by_start (some b) = find_latest-note_generation p a e.producer b e.scope.generation latest

find_latest-note_observations :
    (p : List ℕ) (a : ℕ) (payload : FactPayload) (observations : List Evidence)
    (latest : List Snapshot)
    → find_latest p a (note_observations observations latest)
      ≡ join (find_latest p a latest) (newest p a (facts_of payload observations))
unfolding note_observations newest facts_of
find_latest-note_observations p a payload [] latest = sym (join-none (find_latest p a latest))
find_latest-note_observations p a payload (e ∷ observations) latest =
    find_latest-note_observations p a payload observations (note_evidence e latest)
    ∙ ap (λ m. join m (newest p a (facts_of payload observations)))
        (find_latest-note_evidence p a e latest)
    ∙ join_assoc (find_latest p a latest) (generation_in p a e)
        (newest p a (facts_of payload observations))

newest-append :
    (p : List ℕ) (a : ℕ) (fs gs : List AnalysisFact)
    → newest p a (fs ++ gs) ≡ join (newest p a fs) (newest p a gs)
unfolding newest join
newest-append p a [] gs = refl
newest-append p a (f ∷ fs) gs =
    ap (join (generation_in p a f.evidence)) (newest-append p a fs gs)
    ∙ sym (join_assoc (generation_in p a f.evidence) (newest p a fs) (newest p a gs))

pub find_latest-latest_generations :
    (p : List ℕ) (a : ℕ) (store : EvidenceStore) (latest : List Snapshot)
    → find_latest p a (latest_generations store latest)
      ≡ join (find_latest p a latest) (newest p a (flattened_facts store))
unfolding latest_generations flattened_facts newest
find_latest-latest_generations p a [] latest = sym (join-none (find_latest p a latest))
find_latest-latest_generations p a (x ∷ store) latest =
    let here = facts_of x.value.payload x.value.observations in
    find_latest-latest_generations p a store (note_observations x.value.observations latest)
    ∙ ap (λ m. join m (newest p a (flattened_facts store)))
        (find_latest-note_observations p a x.value.payload x.value.observations latest)
    ∙ join_assoc (find_latest p a latest) (newest p a here) (newest p a (flattened_facts store))
    ∙ ap (join (find_latest p a latest)) (sym (newest-append p a here (flattened_facts store)))

pub none_newer-newest :
    (p : List ℕ) (a g : ℕ) (facts : List AnalysisFact)
    → none_newer p a g facts ≡ elim (newest p a facts) [ none ↦ true | some m ↦ leb m g ]
unfolding none_newer newest join
none_newer-newest p a g [] = refl
none_newer-newest p a g (f ∷ facts) =
    rw (none_newer-newest p a g facts) (both (generation_in p a f.evidence) (newest p a facts))
  where
    both :
        (m n : Option ℕ)
        → (elim m [ none ↦ true | some x ↦ leb x g ] && elim n [ none ↦ true | some x ↦ leb x g ])
          ≡ elim (join m n) [ none ↦ true | some x ↦ leb x g ]
    both none n = refl
    both (some x) none = ground arith
    both (some x) (some y) = ground arith
