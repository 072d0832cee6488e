-- ===== src/Program/Tests.antt =====
-- The queries of a snapshot at two small segments.
use viy.Base.{◌≡◌, refl, arith, false, some, [], ◌∷◌}
use viy.Program.Defs.{SegImage, ProgramImage, x86_64}
use viy.Program.Seg
use viy.Program.Search.{segment_at, first_holding, segment_at-first_holding}
use viy.Program.View.{loaded_view, run_of_loaded}
use viy.Program.Loaded.{loaded_view-size}

-- Ten bytes at 0x1000, of which the last two are not loaded.
abbrev code : SegImage
code = record {
  start = 0x1000;
  end = 0x100a;
  perm = 5;
  bitness = 2;
  bytes = 1 ∷ 2 ∷ 3 ∷ 4 ∷ 5 ∷ 6 ∷ 7 ∷ 8 ∷ 0 ∷ 0 ∷ [];
  mask = 0xff ∷ 0 ∷ [];
}

abbrev table : SegImage
table = record {
  start = 0x2000;
  end = 0x2002;
  perm = 6;
  bitness = 2;
  bytes = 9 ∷ 9 ∷ [];
  mask = 3 ∷ [];
}

abbrev two_segments : ProgramImage
two_segments = record {
  arch = x86_64;
  big_endian = false;
  lo = 0x1000;
  hi = 0x2002;
  segs = code ∷ table ∷ [];
  entries = [];
  content_hash = 0;
  generation = 1;
}

segment_at-first_holding_example :
    segment_at two_segments 0x2001 ≡ first_holding (code ∷ table ∷ []) 0x2001
segment_at-first_holding_example = segment_at-first_holding two_segments 0x2001 (omega arith)

found_table : segment_at two_segments 0x2001 ≡ some table
unfolding segment_at
found_table = refl

loaded_view-size_example : (loaded_view code 0x1003 100).size ≡ run_of_loaded 7 (0xff ∷ 0 ∷ []) 3
loaded_view-size_example = loaded_view-size code 0x1003 100
