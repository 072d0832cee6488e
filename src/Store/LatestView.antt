-- ===== src/Store/LatestView.antt =====
-- The view retains an observation exactly when no other of the same scan is newer
-- (latest_generation_view of src/evidence_store.cpp).
use viy.Base.{
  ℕ, max, ◌≤◌, ◌≡◌, refl, sym, ap, ◌∙◌, Option, none, some, List, [], ◌∷◌, ◌++◌, All, leb, ◌==◌,
  ==_iff, arith, Bool-cases, Option-cases, inl, inr,
}
use viy.Base.Lex.{equal_bytes_self}
use viy.Facts.Schema.{Evidence, FactPayload, AnalysisFact}
use viy.Store.Defs.{Entry, EvidenceStore, facts_of, flattened_facts}
use viy.Store.Latest.{
  Snapshot, find_latest, latest_generations, retain, retained, keep_entry, retained_entries,
  latest_generation_view,
}
use viy.Store.Newest.{
  generation_in, is_latest, latest_facts, join, newest, find_latest-latest_generations,
  none_newer-newest,
}

-- The newest generation of the fact's own scan is not before the fact's.
Bounded : List AnalysisFact → AnalysisFact → Type 0
Bounded all f =
    (a : ℕ)
    → f.evidence.scope.function_start ≡ some a
    → (m : ℕ) × (newest f.evidence.producer a all ≡ some m) × (f.evidence.scope.generation ≤ m)

join_first : (g : ℕ) (b : Option ℕ) → (m : ℕ) × (join (some g) b ≡ some m) × (g ≤ m)
unfolding join
join_first g none = (g, refl, omega arith)
join_first g (some h) = (max g h, refl, omega arith)

join_second : (a : Option ℕ) (h g : ℕ) → g ≤ h → (m : ℕ) × (join a (some h) ≡ some m) × (g ≤ m)
unfolding join
join_second none h g le = (h, refl, le)
join_second (some x) h g le = (max x h, refl, omega arith)

own_generation :
    (e : Evidence) (a : ℕ)
    → e.scope.function_start ≡ some a
    → generation_in e.producer a e ≡ some e.scope.generation
unfolding generation_in
own_generation e a h = rw (h, equal_bytes_self e.producer, (==_iff a a).1 refl) refl

first-Bounded : (f : AnalysisFact) (facts : List AnalysisFact) → Bounded (f ∷ facts) f
unfolding Bounded newest
first-Bounded f facts a h =
    let (m, e, le) = join_first f.evidence.scope.generation (newest f.evidence.producer a facts) in
    (
      m,
      ap (λ g. join g (newest f.evidence.producer a facts)) (own_generation f.evidence a h) ∙ e,
      le,
    )

later-Bounded :
    (g f : AnalysisFact) (facts : List AnalysisFact) → Bounded facts f → Bounded (g ∷ facts) f
unfolding Bounded newest
later-Bounded g f facts b a h =
    let (m, e, le) = b a h in
    let (n, k, lf) =
      join_second (generation_in f.evidence.producer a g.evidence) m f.evidence.scope.generation
        le in
    (n, ap (join (generation_in f.evidence.producer a g.evidence)) e ∙ k, lf)

All-later :
    (g : AnalysisFact) (all facts : List AnalysisFact)
    → All (Bounded all) facts
    → All (Bounded (g ∷ all)) facts
All-later g all [] b = tt
All-later g all (f ∷ facts) (h, b) = (later-Bounded g f all h, All-later g all facts b)

All-Bounded : (facts : List AnalysisFact) → All (Bounded facts) facts
All-Bounded [] = tt
All-Bounded (f ∷ facts) = (first-Bounded f facts, All-later f facts facts (All-Bounded facts))

-- The map that the first pass makes tells the newest generations of these facts.
Tells : List Snapshot → List AnalysisFact → Type 0
Tells latest all = (p : List ℕ) (a : ℕ) → find_latest p a latest ≡ newest p a all

newest_is : (g m : ℕ) → g ≤ m → (g == m) ≡ leb m g
newest_is g m h = ground arith

retain-is_latest :
    (latest : List Snapshot) (all : List AnalysisFact) (f : AnalysisFact)
    → Tells latest all
    → Bounded all f
    → retain latest f.evidence ≡ is_latest all f
unfolding retain is_latest Tells Bounded
retain-is_latest latest all f tells bounded = elim (Option-cases f.evidence.scope.function_start) [
  | inl e ↦ rw (e, retain, is_latest) refl
  | inr (a, e) ↦
      let (m, h, le) = bounded a e in
      let found = tells f.evidence.producer a ∙ h in
      rw
        (
          e,
          retain,
          is_latest,
          found,
          none_newer-newest f.evidence.producer a f.evidence.scope.generation all,
          h,
        )
        (newest_is f.evidence.scope.generation m le)
]

facts_of-retained :
    (latest : List Snapshot) (all : List AnalysisFact) (p : FactPayload)
    (observations : List Evidence)
    → Tells latest all
    → All (Bounded all) (facts_of p observations)
    → facts_of p (retained latest observations) ≡ latest_facts all (facts_of p observations)
unfolding facts_of retained latest_facts
facts_of-retained latest all p [] tells b = refl
facts_of-retained latest all p (e ∷ observations) tells (h, b) =
    let f : AnalysisFact = record { payload = p; evidence = e } in
    let rest = facts_of-retained latest all p observations tells b in
    let same : retain latest e ≡ is_latest all f = retain-is_latest latest all f tells h in
    elim (Bool-cases (is_latest all f)) [
      | inl kept ↦ rw (same, kept) (ap (λ fs. f ∷ fs) rest)
      | inr dropped ↦ rw (same, dropped) rest
    ]

flattened-keep_entry :
    (x : Entry) (observations : List Evidence) (active : EvidenceStore)
    → flattened_facts (keep_entry x observations active)
      ≡ facts_of x.value.payload observations ++ flattened_facts active
unfolding flattened_facts facts_of
flattened-keep_entry x [] active = refl
flattened-keep_entry x (e ∷ observations) active = refl

latest_facts-append :
    (all fs gs : List AnalysisFact)
    → latest_facts all (fs ++ gs) ≡ latest_facts all fs ++ latest_facts all gs
unfolding latest_facts
latest_facts-append all [] gs = refl
latest_facts-append all (f ∷ fs) gs = elim (Bool-cases (is_latest all f)) [
  | inl kept ↦ rw kept (ap (λ hs. f ∷ hs) (latest_facts-append all fs gs))
  | inr dropped ↦ rw dropped (latest_facts-append all fs gs)
]

All-split {ℓ} :
    (P : AnalysisFact → Type ℓ) (fs gs : List AnalysisFact) → All P (fs ++ gs) → All P fs × All P gs
All-split P [] gs b = (tt, b)
All-split P (f ∷ fs) gs (h, b) = let (c, d) = All-split P fs gs b in ((h, c), d)

flattened-retained_entries :
    (latest : List Snapshot) (all : List AnalysisFact) (store : EvidenceStore)
    → Tells latest all
    → All (Bounded all) (flattened_facts store)
    → flattened_facts (retained_entries latest store) ≡ latest_facts all (flattened_facts store)
unfolding retained_entries flattened_facts latest_facts
flattened-retained_entries latest all [] tells b = refl
flattened-retained_entries latest all (x ∷ store) tells b =
    let here = facts_of x.value.payload x.value.observations in
    let (c, d) = All-split (Bounded all) here (flattened_facts store) b in
    flattened-keep_entry x (retained latest x.value.observations) (retained_entries latest store)
    ∙ ap (λ fs. fs ++ flattened_facts (retained_entries latest store))
        (facts_of-retained latest all x.value.payload x.value.observations tells c)
    ∙ ap (λ fs. latest_facts all here ++ fs) (flattened-retained_entries latest all store tells d)
    ∙ sym (latest_facts-append all here (flattened_facts store))

-- The view has, in order, the facts of the ledger that belong to no function or than which no fact
-- of the same producer and function is of a later generation, whatever their payloads.
pub flattened_facts-latest_generation_view :
    (store : EvidenceStore)
    → flattened_facts (latest_generation_view store)
      ≡ latest_facts (flattened_facts store) (flattened_facts store)
unfolding latest_generation_view Tells newest join
flattened_facts-latest_generation_view store =
    flattened-retained_entries (latest_generations store []) (flattened_facts store) store
      (tells store) (All-Bounded (flattened_facts store))
  where
    tells : (s : EvidenceStore) → Tells (latest_generations s []) (flattened_facts s)
    tells s p a = find_latest-latest_generations p a s []
