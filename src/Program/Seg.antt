-- ===== src/Program/Seg.antt =====
-- The queries of one segment (SegImage of src/program_model_core.cpp).
use viy.Base.{
  ℕ, ◌-◌, ◌/◌, ◌%◌, Bool, false, ◌&&◌, none, some, List, get_elem?, ltb, leb, if◌then◌else◌,
}
use viy.Base.Bits.{test_bit}
use viy.Program.Defs.{SegImage, SegPerm, exec, write, read}

-- SegImage::contains
abbrev pub contains : SegImage → ℕ → Bool
contains s ea = leb s.start ea && ltb ea s.end

-- The bit of the mask at an offset; a byte behind the mask counts as not loaded.
unfoldable pub loaded_at : List ℕ → ℕ → Bool
loaded_at mask off = elim (get_elem? mask (off / 8)) [
  | none ↦ false
  | some m ↦ test_bit m (off % 8)
]

-- SegImage::byte_loaded
unfoldable pub byte_loaded : SegImage → ℕ → Bool
unfolding loaded_at
byte_loaded s ea = if contains s ea then loaded_at s.mask (ea - s.start) else false

-- the bit of a permission in `perm`
abbrev pub perm_bit : SegPerm → ℕ
perm_bit exec = 0
perm_bit write = 1
perm_bit read = 2

-- SegImage::has_perm
unfoldable pub has_perm : SegImage → SegPerm → Bool
has_perm s required = test_bit s.perm (perm_bit required)
