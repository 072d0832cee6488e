-- ===== src/Program/Func.antt =====
-- The queries of one function and of its chunks (FuncRange and FuncChunk of
-- src/program_model.hpp and src/program_model_core.cpp).
use viy.Base.{ℕ, ◌+◌, ◌-◌, Bool, true, false, ◌&&◌, List, [], ◌∷◌, ltb, leb, if◌then◌else◌}
use viy.Program.Defs.{FuncChunk, FuncRange, u64_max}

abbrev pub chunk_contains : FuncChunk → ℕ → Bool
chunk_contains c ea = leb c.start ea && ltb ea c.end

abbrev pub chunk_size : FuncChunk → ℕ
chunk_size c = if ltb c.start c.end then c.end - c.start else 0

unfoldable pub any_contains : List FuncChunk → ℕ → Bool
any_contains [] ea = false
any_contains (c ∷ cs) ea = if chunk_contains c ea then true else any_contains cs ea

-- FuncRange::contains
unfoldable pub contains : FuncRange → ℕ → Bool
unfolding any_contains
contains f ea = elim f.chunks [
  | [] ↦ leb f.start ea && ltb ea f.end
  | c ∷ cs ↦ any_contains (c ∷ cs) ea
]

-- the loop of byte_size, which stops at the largest number
unfoldable pub size_loop : ℕ → List FuncChunk → ℕ
size_loop total [] = total
size_loop total (c ∷ cs) =
    let rest = size_loop (total + chunk_size c) cs in
    if ltb (u64_max - total) (chunk_size c) then u64_max else rest

-- FuncRange::byte_size
unfoldable pub byte_size : FuncRange → ℕ
unfolding size_loop
byte_size f = elim f.chunks [
  | [] ↦ if ltb f.start f.end then f.end - f.start else 0
  | c ∷ cs ↦ size_loop 0 (c ∷ cs)
]
