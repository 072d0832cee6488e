-- ===== src/Store/Latest.antt =====
-- The latest generation of each producer's scan of a function (latest_generation_view of
-- src/evidence_store.cpp). The map of generations is a list of its entries.
use viy.Base.{
  ℕ, max, Bool, true, false, ◌&&◌, Option, none, some, List, [], ◌∷◌, ◌==◌, if◌then◌else◌,
}
use viy.Base.Lex.{equal_bytes}
use viy.Facts.Schema.{Evidence}
use viy.Store.Defs.{Entry, EvidenceStore}

pub record Snapshot : Type 0 where
  pub producer : List ℕ
  pub start : ℕ
  pub generation : ℕ

abbrev pub is_snapshot : List ℕ → ℕ → Snapshot → Bool
is_snapshot producer start s = equal_bytes s.producer producer && s.start == start

-- emplace, or the maximum with the entry that is there.
unfoldable pub note_generation : List ℕ → ℕ → ℕ → List Snapshot → List Snapshot
note_generation producer start generation [] =
    record { producer = producer; start = start; generation = generation } ∷ []
note_generation producer start generation (s ∷ latest) =
    let rest = note_generation producer start generation latest in
    if is_snapshot producer start s
    then record s { generation = max s.generation generation } ∷ latest
    else s ∷ rest

unfoldable pub find_latest : List ℕ → ℕ → List Snapshot → Option ℕ
find_latest producer start [] = none
find_latest producer start (s ∷ latest) =
    let rest = find_latest producer start latest in
    if is_snapshot producer start s then some s.generation else rest

abbrev pub note_evidence : Evidence → List Snapshot → List Snapshot
note_evidence e latest = elim e.scope.function_start [
  | none ↦ latest
  | some start ↦ note_generation e.producer start e.scope.generation latest
]

unfoldable pub note_observations : List Evidence → List Snapshot → List Snapshot
unfolding note_generation
note_observations [] latest = latest
note_observations (e ∷ observations) latest =
    note_observations observations (note_evidence e latest)

-- The first pass.
unfoldable pub latest_generations : EvidenceStore → List Snapshot → List Snapshot
unfolding note_observations
latest_generations [] latest = latest
latest_generations (entry ∷ store) latest =
    latest_generations store (note_observations entry.value.observations latest)

unfoldable pub retain : List Snapshot → Evidence → Bool
unfolding find_latest
retain latest e = elim e.scope.function_start [
  | none ↦ true
  | some start ↦ elim (find_latest e.producer start latest) [
    | none ↦ false
    | some generation ↦ e.scope.generation == generation
  ]
]

unfoldable pub retained : List Snapshot → List Evidence → List Evidence
unfolding retain
retained latest [] = []
retained latest (e ∷ observations) =
    let rest = retained latest observations in if retain latest e then e ∷ rest else rest

abbrev pub keep_entry : Entry → List Evidence → EvidenceStore → EvidenceStore
keep_entry entry [] active = active
keep_entry entry (e ∷ observations) active =
    record {
      key = entry.key;
      value = record { payload = entry.value.payload; observations = e ∷ observations };
    }
    ∷ active

-- The second pass.
unfoldable pub retained_entries : List Snapshot → EvidenceStore → EvidenceStore
unfolding retained
retained_entries latest [] = []
retained_entries latest (entry ∷ store) =
    keep_entry entry (retained latest entry.value.observations) (retained_entries latest store)

unfoldable pub latest_generation_view : EvidenceStore → EvidenceStore
unfolding latest_generations retained_entries
latest_generation_view store = retained_entries (latest_generations store []) store
