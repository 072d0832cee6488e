-- ===== src/Program/View.antt =====
-- SegImage::loaded_view and ProgramImage::loaded_view (src/program_model_core.cpp): the longest run
-- of loaded bytes from an address, found mask byte by mask byte.
use viy.Base.{
  ℕ, zero, suc, ◌+◌, ◌-◌, ◌*◌, ◌/◌, ◌%◌, ◌^◌, ◌≤◌, ◌<◌, ◌≡◌, refl, ap, ◌∙◌, sym, inl, inr, true,
  false, ◌||◌, Option, none, some, List, arith, length, get_elem?, ltb, leb, ◌==◌, if◌then◌else◌,
  min, Bool-cases, Option-cases, not,
}
use viy.Base.Bits.{test_bit, test_bit_shift, ones, low_bits_full, pow-suc-div}
use native.Mathlib.Nat.{add-zero, zero-add}
use viy.Program.Defs.{SegImage, ProgramImage}
use viy.Program.Seg
use viy.Program.Seg.{loaded_at}
use viy.Program.Search.{segment_at}

-- `data` is the offset of the view in the segment's bytes, or none for the null pointer.
pub record LoadedByteView : Type 0 where
  pub data_at : Option ℕ
  pub size : ℕ

abbrev pub no_view : LoadedByteView
no_view = record { data_at = none; size = 0 }

-- for ( i = 0; i < count && (bits & (1u << i)) != 0; ++i ) ++length
unfoldable pub leading : ℕ → ℕ → ℕ → ℕ
leading zero i bits = 0
leading (suc k) i bits = if test_bit bits i then suc (leading k (i + 1) bits) else 0

-- The loop over the mask's bytes. Each round takes one bit at least, so `limit` is fuel enough.
unfoldable pub view_loop : ℕ → List ℕ → ℕ → ℕ → ℕ → ℕ
unfolding leading
view_loop zero mask begin limit len = len
view_loop (suc fuel) mask begin limit len =
    let current : ℕ = begin + len in
    let count : ℕ = min (8 - current % 8) (limit - len) in
    let more = view_loop fuel mask begin limit (len + count) in
    if ltb len limit
    then elim (get_elem? mask (current / 8)) [
      | none ↦ len
      | some m ↦
          if m / 2 ^ (current % 8) % 2 ^ count == 2 ^ count - 1
          then more
          else len + leading count 0 (m / 2 ^ (current % 8))
    ]
    else len

-- SegImage::loaded_view
unfoldable pub loaded_view : SegImage → ℕ → ℕ → LoadedByteView
unfolding view_loop
loaded_view s ea maximum =
    let begin : ℕ = ea - s.start in
    let limit : ℕ = min (s.end - ea) (min maximum (length s.bytes - begin)) in
    let len : ℕ = view_loop limit s.mask begin limit 0 in
    if not (Seg.contains s ea) || maximum == 0
    then no_view
    else if leb (length s.bytes) begin
    then no_view
    else if len == 0
    then no_view
    else record { data_at = some begin; size = len }

-- ProgramImage::loaded_view
unfoldable pub image_view : ProgramImage → ℕ → ℕ → LoadedByteView
unfolding loaded_view
image_view img ea maximum = elim (segment_at img ea) [
  | none ↦ no_view
  | some s ↦ loaded_view s ea maximum
]

-- Bit by bit: how many of the next `k` bytes from an offset are loaded before the first that is not.
unfoldable pub run_of_loaded : ℕ → List ℕ → ℕ → ℕ
run_of_loaded zero mask off = 0
run_of_loaded (suc k) mask off =
    if loaded_at mask off then suc (run_of_loaded k mask (off + 1)) else 0

module _ (mask : List ℕ) (b m : ℕ) (at : get_elem? mask b ≡ some m) where
  -- Inside one byte of the mask.
  loaded_in_byte : (c off : ℕ) → off ≡ 8 * b + c → c < 8 → loaded_at mask off ≡ test_bit m c
  unfolding loaded_at
  loaded_in_byte c off e h =
      let same_byte : off / 8 ≡ b = omega arith in
      let bit : off % 8 ≡ c = omega arith in ground (arith, ap (get_elem? mask) same_byte, at)

  leading-run :
      (k i c off : ℕ)
      → off ≡ 8 * b + c + i
      → c + i + k ≤ 8
      → leading k i (m / 2 ^ c) ≡ run_of_loaded k mask off
  unfolding leading run_of_loaded
  leading-run zero i c off e h = refl
  leading-run (suc k) i c off e h = rw (
    test_bit_shift m c i,
    loaded_in_byte (c + i) off (omega arith) (omega arith),
    leading-run k (i + 1) c (off + 1) (omega arith) (omega arith),
  )

  run_full :
      (k rest c off : ℕ)
      → off ≡ 8 * b + c
      → c + k ≤ 8
      → ones k (m / 2 ^ c) ≡ true
      → run_of_loaded (k + rest) mask off ≡ k + run_of_loaded rest mask (off + k)
  unfolding run_of_loaded ones
  run_full zero rest c off e h full =
      rw (add-zero off, zero-add rest, zero-add (run_of_loaded rest mask off))
  run_full (suc k) rest c off e h full =
      let shift : suc k + rest ≡ suc (k + rest) = omega arith in
      let next : off + suc k ≡ off + 1 + k = omega arith in
      let hit : test_bit m c ≡ true = ground arith in
      let ih =
        run_full k rest (suc c) (off + 1) (omega arith) (omega arith)
          (rw (← pow-suc-div m c) (ground arith)) in
      rw (shift, next) (ground (arith, loaded_in_byte c off e (omega arith), hit, ih))

  run_stops :
      (k rest c off : ℕ)
      → off ≡ 8 * b + c
      → c + k ≤ 8
      → ones k (m / 2 ^ c) ≡ false
      → run_of_loaded (k + rest) mask off ≡ run_of_loaded k mask off
  unfolding run_of_loaded ones
  run_stops zero rest c off e h full = cc
  run_stops (suc k) rest c off e h full =
      let shift : suc k + rest ≡ suc (k + rest) = omega arith in
      rw shift (
        ground (
          arith,
          loaded_in_byte c off e (omega arith),
          ap (ones k) (pow-suc-div m c),
          run_stops k rest (suc c) (off + 1) (omega arith) (omega arith),
        ))

module _ (mask : List ℕ) (begin limit : ℕ) where
  -- One round of the loop, at a byte of the mask that is there.
  module _ (len m : ℕ) (room : len < limit) (at : get_elem? mask ((begin + len) / 8) ≡ some m) where
    abbrev here : ℕ
    here = begin + len

    abbrev part : ℕ
    part = min (8 - here % 8) (limit - len)

    split_run :
        run_of_loaded (limit - len) mask here
        ≡ run_of_loaded (part + (limit - len - part)) mask here
    split_run =
        let e : limit - len ≡ part + (limit - len - part) = omega arith in
        ap (λ k. run_of_loaded k mask here) e

    round_full :
        ones part (m / 2 ^ (here % 8)) ≡ true
        → run_of_loaded (limit - len) mask here
          ≡ part + run_of_loaded (limit - (len + part)) mask (begin + (len + part))
    round_full full =
        let rest : limit - len - part ≡ limit - (len + part) = omega arith in
        let place : here + part ≡ begin + (len + part) = omega arith in
        split_run
        ∙ run_full mask (here / 8) m at part (limit - len - part) (here % 8) here (omega arith)
            (omega arith) full
        ∙ rw (rest, place)

    round_stops :
        ones part (m / 2 ^ (here % 8)) ≡ false
        → run_of_loaded (limit - len) mask here ≡ leading part 0 (m / 2 ^ (here % 8))
    round_stops stop =
        split_run
        ∙ run_stops mask (here / 8) m at part (limit - len - part) (here % 8) here (omega arith)
            (omega arith) stop
        ∙ sym (leading-run mask (here / 8) m at part 0 (here % 8) here (omega arith) (omega arith))

  run_off_mask : (k off : ℕ) → get_elem? mask (off / 8) ≡ none → run_of_loaded k mask off ≡ 0
  unfolding run_of_loaded loaded_at
  run_off_mask zero off h = refl
  run_off_mask (suc k) off h = ground arith

  pub view_loop_lem :
      (fuel len : ℕ)
      → len ≤ limit
      → limit - len ≤ fuel
      → view_loop fuel mask begin limit len ≡ len + run_of_loaded (limit - len) mask (begin + len)
  unfolding view_loop
  view_loop_lem zero len h enough =
      let done : limit - len ≡ 0 = omega arith in rw done (unfold run_of_loaded in omega arith)
  view_loop_lem (suc fuel) len h enough = elim (Bool-cases (ltb len limit)) [
    | inr e ↦
        let done : limit - len ≡ 0 = ground arith in
        rw (e, done) (unfold run_of_loaded in omega arith)
    | inl e ↦ elim (Option-cases (get_elem? mask ((begin + len) / 8))) [
      | inl gone ↦ ground (arith, run_off_mask (limit - len) (begin + len) gone)
      | inr found ↦
          let room : len < limit = ground arith in
          ground (
            arith,
            found.1,
            low_bits_full (min (8 - (begin + len) % 8) (limit - len))
                (found.0 / 2 ^ ((begin + len) % 8)),
            round_full len found.0 room found.1,
            round_stops len found.0 room found.1,
            view_loop_lem fuel (len + min (8 - (begin + len) % 8) (limit - len)) (omega arith)
                (omega arith),
          )
    ]
  ]
