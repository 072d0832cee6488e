-- ===== src/Runtime/Writes.antt =====
-- Writes grouped by what they wrote, and the tests of a range against other observations
-- (src/emu_driver.hpp and src/runtime_enrich_core.{hpp,cpp}). An address has 64 bits. A set of runs
-- is a list without repetition, an observation's fields run_id and seed are its RunKey, and a map of groups a list of them, in the order of their first
-- observation.
use viy.Base.{
  ℕ, suc, ◌+◌, ◌-◌, ◌^◌, Bool, true, false, not, ◌&&◌, ◌||◌, Option, none, some, List, [], ◌∷◌,
  length, ltb, leb, ◌==◌, if◌then◌else◌,
}
use viy.Base.Lex.{equal_bytes}

pub data DataScope : Type 0 where
  image stack heap other : DataScope

unfoldable pub scope_id : DataScope → ℕ
scope_id image = 0
scope_id stack = 1
scope_id heap = 2
scope_id other = 3

pub record RunKey : Type 0 where
  pub run_id : ℕ
  pub seed : ℕ

pub record MemoryBytes : Type 0 where
  pub addr : ℕ
  pub bytes : List ℕ
  pub scope : DataScope
  pub run : RunKey

pub record DataAcc : Type 0 where
  pub from : ℕ
  pub addr : ℕ
  pub value : ℕ
  pub size : ℕ
  pub kind : ℕ
  pub scope : DataScope
  pub sequence : ℕ
  pub run : RunKey

pub record ExecPoint : Type 0 where
  pub pc : ℕ
  pub sequence : ℕ
  pub run : RunKey

pub data EdgeKind : Type 0 where
  unknown call jump return : EdgeKind

pub record ExecEdge : Type 0 where
  pub from : ℕ
  pub to : ℕ
  pub run : RunKey
  pub kind : EdgeKind
  pub sequence : ℕ

unfoldable pub same_run : RunKey → RunKey → Bool
same_run r s = r.run_id == s.run_id && r.seed == s.seed

unfoldable pub same_scope : DataScope → DataScope → Bool
unfolding scope_id
same_scope a b = scope_id a == scope_id b

unfoldable pub checked_end : ℕ → ℕ → Option ℕ
checked_end start size = if ltb ((2 ^ 64 - 1) - start) size then none else some (start + size)

unfoldable pub ranges_overlap : ℕ → ℕ → ℕ → ℕ → Bool
unfolding checked_end
ranges_overlap left left_size right right_size =
    if left_size == 0 || right_size == 0 then false else elim (checked_end left left_size) [
      | none ↦ false
      | some left_end ↦ elim (checked_end right right_size) [
        | none ↦ false
        | some right_end ↦ ltb left right_end && ltb right left_end
      ]
    ]

pub record WriteKey : Type 0 where
  pub addr : ℕ
  pub scope : DataScope
  pub bytes : List ℕ

pub record WriteGroup : Type 0 where
  pub key : WriteKey
  pub runs : List RunKey

unfoldable pub corroborated : WriteGroup → Bool
corroborated group = leb 2 (length group.runs)

unfoldable pub same_key : WriteKey → WriteKey → Bool
unfolding same_scope
same_key a b = same_scope a.scope b.scope && a.addr == b.addr && equal_bytes a.bytes b.bytes

unfoldable pub insert_run : RunKey → List RunKey → List RunKey
unfolding same_run
insert_run run [] = run ∷ []
insert_run run (r ∷ runs) =
    let rest = insert_run run runs in if same_run r run then r ∷ runs else r ∷ rest

-- groups[key].runs.insert(run)
unfoldable pub add_write : WriteKey → RunKey → List WriteGroup → List WriteGroup
unfolding same_key insert_run
add_write key run [] = record { key = key; runs = run ∷ [] } ∷ []
add_write key run (g ∷ groups) =
    let rest = add_write key run groups in
    if same_key g.key key
    then record { key = g.key; runs = insert_run run g.runs } ∷ groups
    else g ∷ rest

unfoldable pub write_key : MemoryBytes → WriteKey
write_key observation = record {
  addr = observation.addr;
  scope = observation.scope;
  bytes = observation.bytes;
}

unfoldable pub add_observation : MemoryBytes → List WriteGroup → List WriteGroup
unfolding add_write write_key
add_observation observation groups =
    if length observation.bytes == 0
    then groups
    else add_write (write_key observation) observation.run groups

unfoldable pub write_groups : List MemoryBytes → List WriteGroup → List WriteGroup
unfolding add_observation
write_groups [] groups = groups
write_groups (o ∷ observations) groups = write_groups observations (add_observation o groups)

pub record WriteCollection : Type 0 where
  pub groups : List WriteGroup
  pub observations : ℕ
  pub corroborated_groups : ℕ
  pub uncorroborated_groups : ℕ

unfoldable pub count_groups : Bool → List WriteGroup → ℕ
unfolding corroborated
count_groups wanted [] = 0
count_groups wanted (g ∷ groups) =
    let rest = count_groups wanted groups in
    if (if wanted then corroborated g else not (corroborated g)) then suc rest else rest

unfoldable pub collect_write_groups : List MemoryBytes → WriteCollection
unfolding write_groups count_groups
collect_write_groups observations = record {
  groups = write_groups observations [];
  observations = length observations;
  corroborated_groups = count_groups true (write_groups observations []);
  uncorroborated_groups = count_groups false (write_groups observations []);
}
