-- ===== src/Decoder/Window.antt =====
-- How many bytes may be offered to the decoder (viy_decoder_window_size of src/decoder_core.cpp).
use viy.Base.{ℕ, ◌-◌, ◌≤◌, ◌≡◌, ◌||◌, arith, ltb, leb, ◌==◌, if◌then◌else◌, min}

-- `size_max` is std::numeric_limits<size_t>::max() of the host.
pub window_size : ℕ → ℕ → ℕ → ℕ → ℕ
window_size size_max pc chunk_end maximum_bytes =
    let remaining : ℕ = chunk_end - pc in
    let bounded : ℕ = if ltb size_max remaining then size_max else remaining in
    if maximum_bytes == 0 || leb chunk_end pc then 0 else min maximum_bytes bounded

-- The window never reaches past the chunk's end, is no larger than asked for or than a size can be,
-- is zero for an address at or behind the end, and is otherwise the largest such number, at every
-- address up to the last one of the machine.
pub window_size_lem :
    (size_max pc chunk_end maximum_bytes : ℕ)
    → (window_size size_max pc chunk_end maximum_bytes
        ≡ min maximum_bytes (min (chunk_end - pc) size_max))
      × (window_size size_max pc chunk_end maximum_bytes ≤ chunk_end - pc)
unfolding window_size
window_size_lem size_max pc chunk_end maximum_bytes = (ground arith, ground arith)
