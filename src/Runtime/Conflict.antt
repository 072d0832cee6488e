-- ===== src/Runtime/Conflict.antt =====
-- The tests of a range against the observations, and the temporal gates (range_has_conflict,
-- write_then_execute_runs and read_precedes_edge of src/runtime_enrich_core.cpp). RAX_MEM_READ
-- and RAX_MEM_WRITE come from rax.h, which is not in the repository: they are parameters.
use viy.Base.{
  ℕ, zero, suc, ◌-◌, Bool, true, false, not, ◌&&◌, ◌||◌, Option, none, some, List, [], ◌∷◌, length,
  get_elem?, max, min, ltb, leb, ◌==◌, if◌then◌else◌,
}
use viy.Runtime.Writes.{
  DataScope, RunKey, MemoryBytes, DataAcc, ExecPoint, ExecEdge, same_run, same_scope, checked_end,
  ranges_overlap, insert_run,
}

abbrev pub different : Option ℕ → Option ℕ → Bool
different (some a) (some b) = not (a == b)
different (some a) none = false
different none b = false

-- The loop over the addresses from ea.
unfoldable pub bytes_differ : ℕ → ℕ → ℕ → List ℕ → ℕ → List ℕ → Bool
bytes_differ zero ea addr expected observed_addr bytes = false
bytes_differ (suc n) ea addr expected observed_addr bytes =
    different (get_elem? expected (ea - addr)) (get_elem? bytes (ea - observed_addr))
    || bytes_differ n (suc ea) addr expected observed_addr bytes

-- One observation, whose end has been computed.
unfoldable pub overlap_differs : ℕ → ℕ → List ℕ → MemoryBytes → ℕ → Bool
unfolding bytes_differ
overlap_differs addr expected_end expected observation observed_end =
    let lo = max addr observation.addr in
    bytes_differ (min expected_end observed_end - lo) lo addr expected observation.addr
      observation.bytes

unfoldable pub observation_conflicts : ℕ → ℕ → List ℕ → DataScope → MemoryBytes → Bool
unfolding overlap_differs same_scope checked_end
observation_conflicts addr expected_end expected scope observation =
    if not (same_scope observation.scope scope) || length observation.bytes == 0
    then false
    else elim (checked_end observation.addr (length observation.bytes)) [
      | none ↦ true
      | some observed_end ↦ overlap_differs addr expected_end expected observation observed_end
    ]

unfoldable pub any_conflicts : ℕ → ℕ → List ℕ → DataScope → List MemoryBytes → Bool
unfolding observation_conflicts
any_conflicts addr expected_end expected scope [] = false
any_conflicts addr expected_end expected scope (o ∷ observations) =
    observation_conflicts addr expected_end expected scope o
    || any_conflicts addr expected_end expected scope observations

unfoldable pub range_has_conflict : List MemoryBytes → ℕ → List ℕ → DataScope → Bool
unfolding any_conflicts checked_end
range_has_conflict observations addr expected scope =
    if length expected == 0 then true else elim (checked_end addr (length expected)) [
      | none ↦ true
      | some expected_end ↦ any_conflicts addr expected_end expected scope observations
    ]

module _ (rax_mem_read rax_mem_write : ℕ) where
  unfoldable pub executed_after : DataAcc → List ExecPoint → ℕ → ℕ → Bool
  unfolding same_run
  executed_after access [] addr end = false
  executed_after access (point ∷ execution) addr end =
      same_run point.run access.run
        && ltb access.sequence point.sequence
        && leb addr point.pc
        && ltb point.pc end
      || executed_after access execution addr end

  unfoldable pub writes_range : DataAcc → ℕ → ℕ → DataScope → Bool
  unfolding same_scope ranges_overlap
  writes_range access addr size scope =
      access.kind == rax_mem_write
      && same_scope access.scope scope
      && not (access.size == 0)
      && ranges_overlap addr size access.addr access.size

  unfoldable pub execute_runs :
      List DataAcc → List ExecPoint → ℕ → ℕ → ℕ → DataScope → List RunKey → List RunKey
  unfolding writes_range executed_after insert_run
  execute_runs [] execution addr size end scope result = result
  execute_runs (access ∷ accesses) execution addr size end scope result =
      execute_runs accesses execution addr size end scope (
        if writes_range access addr size scope && executed_after access execution addr end
        then insert_run access.run result
        else result)

  unfoldable pub write_then_execute_runs :
      List DataAcc → List ExecPoint → ℕ → ℕ → DataScope → List RunKey
  unfolding execute_runs checked_end
  write_then_execute_runs accesses execution addr size scope =
      if size == 0 then [] else elim (checked_end addr size) [
        | none ↦ []
        | some end ↦ execute_runs accesses execution addr size end scope []
      ]

  unfoldable pub read_precedes_edge : DataAcc → ExecEdge → Bool
  unfolding same_run
  read_precedes_edge read edge =
      read.kind == rax_mem_read && same_run read.run edge.run && ltb read.sequence edge.sequence
