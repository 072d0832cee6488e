-- ===== src/Program/Loaded.antt =====
-- What SegImage::loaded_view returns (src/program_model_core.cpp).
use viy.Base.{ℕ, zero, suc, ◌-◌, ◌≡◌, refl, arith, length, min, if◌then◌else◌}
use viy.Program.Defs.{SegImage}
use viy.Program.Seg
use viy.Program.View.{loaded_view, view_loop_lem, run_of_loaded}

-- The view of an address has as many bytes as a scan byte by byte finds loaded from there on, in at
-- most the given number, before the segment's end, the end of its buffer and the first byte that is
-- not loaded; outside the segment it is empty.
pub loaded_view-size :
    (s : SegImage) (ea maximum : ℕ)
    → (loaded_view s ea maximum).size ≡ (
        if Seg.contains s ea
        then run_of_loaded
            (min (s.end - ea) (min maximum (length s.bytes - (ea - s.start))))
            s.mask
            (ea - s.start)
        else 0)
unfolding loaded_view
loaded_view-size s ea maximum =
    let begin : ℕ = ea - s.start in
    let limit : ℕ = min (s.end - ea) (min maximum (length s.bytes - begin)) in
    ground
      (arith, view_loop_lem s.mask begin limit limit 0 (omega arith) (omega arith), run_none limit)
  where
    run_none : (n : ℕ) → n ≡ 0 → run_of_loaded n s.mask (ea - s.start) ≡ 0
    run_none zero h = unfold run_of_loaded in refl
    run_none (suc n) h = absurd (omega arith)
