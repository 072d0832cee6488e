-- ===== src/Runtime/Corroborated.antt =====
-- What the groups of writes record (collect_write_groups of src/runtime_enrich_core.cpp).
use viy.Base.{Bool, false, not, ◌&&◌, ◌||◌, List, [], ◌∷◌, length, ◌==◌}
use viy.Runtime.Writes.{RunKey, MemoryBytes, WriteKey, WriteGroup, same_run, same_key, write_key}

unfoldable pub has_run : RunKey → List RunKey → Bool
has_run run [] = false
has_run run (r ∷ runs) = same_run r run || has_run run runs

-- Some group of the key has the run.
unfoldable pub recorded : WriteKey → RunKey → List WriteGroup → Bool
recorded key run [] = false
recorded key run (g ∷ groups) = same_key g.key key && has_run run g.runs || recorded key run groups

-- An observation of that run wrote these bytes there.
unfoldable pub is_write : WriteKey → RunKey → MemoryBytes → Bool
is_write key run o = not (length o.bytes == 0) && (same_key (write_key o) key && same_run o.run run)

unfoldable pub wrote : WriteKey → RunKey → List MemoryBytes → Bool
unfolding is_write
wrote key run [] = false
wrote key run (o ∷ observations) = is_write key run o || wrote key run observations
