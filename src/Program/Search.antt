-- ===== src/Program/Search.antt =====
-- ProgramImage::segment_at (src/program_model_core.cpp) finds the segment that holds an address.
use viy.Base.{
  ℕ, zero, suc, ◌+◌, ◌-◌, ◌/◌, ◌≤◌, ◌<◌, ◌≡◌, ◌≢◌, refl, ap, ◌∙◌, inl, inr, Bool, true, false, ◌&&◌,
  Option, none, some, List, [], ◌∷◌, arith, length, get_elem?, ltb, leb, ◌==◌, if◌then◌else◌,
  Bool-cases,
}
use viy.Program.Defs.{SegImage, ProgramImage, SegPerm}
use viy.Program.Seg

-- the loop of segment_at; the fuel is at least the number of rounds, since `last - first` falls
unfoldable pub search_loop : ℕ → List SegImage → ℕ → ℕ → ℕ → ℕ
search_loop zero segs ea first last = first
search_loop (suc fuel) segs ea first last =
    let mid : ℕ = first + (last - first) / 2 in
    let above = search_loop fuel segs ea (mid + 1) last in
    let below = search_loop fuel segs ea first mid in
    if ltb first last
    then elim (get_elem? segs mid) [
      | none ↦ first
      | some s ↦ if leb s.start ea then above else below
    ]
    else first

abbrev pub holding : ℕ → Option SegImage → Option SegImage
holding ea none = none
holding ea (some s) = if Seg.contains s ea then some s else none

unfoldable pub segment_in : List SegImage → ℕ → Option SegImage
unfolding search_loop
segment_in segs ea =
    let first = search_loop (length segs) segs ea 0 (length segs) in
    if first == 0 then none else holding ea (get_elem? segs (first - 1))

-- ProgramImage::segment_at, and ProgramImage::contains by it
unfoldable pub segment_at : ProgramImage → ℕ → Option SegImage
unfolding segment_in
segment_at img ea = segment_in img.segs ea

-- ProgramImage::byte_loaded
unfoldable pub byte_loaded : ProgramImage → ℕ → Bool
unfolding segment_at
byte_loaded img ea = elim (segment_at img ea) [ none ↦ false | some s ↦ Seg.byte_loaded s ea ]

-- ProgramImage::has_perm
unfoldable pub has_perm : ProgramImage → ℕ → SegPerm → Bool → Bool
unfolding segment_at
has_perm img ea required allow_unknown = elim (segment_at img ea) [
  | none ↦ false
  | some s ↦ if allow_unknown && s.perm == 0 then true else Seg.has_perm s required
]

-- Sorted by start, with positive sizes and no overlaps, from an address on.
abbrev pub IsSnapshotFrom : ℕ → List SegImage → Type 0
IsSnapshotFrom lo [] = Unit
IsSnapshotFrom lo (s ∷ segs) = (lo ≤ s.start) × (s.start < s.end) × IsSnapshotFrom s.end segs

-- The first segment that holds an address, by looking at all in turn.
unfoldable pub first_holding : List SegImage → ℕ → Option SegImage
first_holding [] ea = none
first_holding (s ∷ segs) ea = if Seg.contains s ea then some s else first_holding segs ea

-- How many segments at the front start at or below an address.
starting_below : ℕ → List SegImage → ℕ
starting_below ea [] = 0
starting_below ea (s ∷ segs) = if leb s.start ea then suc (starting_below ea segs) else 0

starting_below-le : (ea : ℕ) (segs : List SegImage) → starting_below ea segs ≤ length segs
unfolding starting_below
starting_below-le ea [] = omega arith
starting_below-le ea (s ∷ segs) = ground (arith, starting_below-le ea segs)

none_below :
    (ea lo : ℕ) (segs : List SegImage)
    → IsSnapshotFrom lo segs
    → ea < lo
    → starting_below ea segs ≡ 0
unfolding starting_below
none_below ea lo [] v h = refl
none_below ea lo (s ∷ segs) v h = ground arith

-- A segment starts at or below the address exactly if it stands among those at the front.
start_iff :
    (ea lo i : ℕ) (segs : List SegImage) (s : SegImage)
    → IsSnapshotFrom lo segs
    → get_elem? segs i ≡ some s
    → leb s.start ea ≡ ltb i (starting_below ea segs)
unfolding starting_below
start_iff ea lo i [] s v h = cc
start_iff ea lo zero (x ∷ segs) s v h = ground arith
start_iff ea lo (suc i) (x ∷ segs) s v h =
    ground (arith, start_iff ea x.end i segs s v.2 h, none_below ea x.end segs v.2)

get_elem?-some :
    (segs : List SegImage) (i : ℕ) → i < length segs → (s : SegImage) × (get_elem? segs i ≡ some s)
get_elem?-some [] i h = absurd (omega arith)
get_elem?-some (s ∷ segs) zero h = (s, refl)
get_elem?-some (s ∷ segs) (suc i) h = get_elem?-some segs i (omega arith)

search_loop_lem :
    (fuel : ℕ) (segs : List SegImage) (ea lo first last : ℕ)
    → IsSnapshotFrom lo segs
    → first ≤ starting_below ea segs
    → starting_below ea segs ≤ last
    → last ≤ length segs
    → last - first ≤ fuel
    → search_loop fuel segs ea first last ≡ starting_below ea segs
unfolding search_loop
search_loop_lem zero segs ea lo first last v a b c d = omega arith
search_loop_lem (suc fuel) segs ea lo first last v a b c d = elim (Bool-cases (ltb first last)) [
  | inr e ↦ rw e (ground arith)
  | inl e ↦
      let mid : ℕ = first + (last - first) / 2 in
      let at = get_elem?-some segs mid (ground arith) in
      ground (
        arith,
        at.1,
        start_iff ea lo mid segs at.0 v at.1,
        search_loop_lem fuel segs ea lo (mid + 1) last v,
        search_loop_lem fuel segs ea lo first mid v,
      )
]

none_holding :
    (ea lo : ℕ) (segs : List SegImage)
    → IsSnapshotFrom lo segs
    → ea < lo
    → first_holding segs ea ≡ none
unfolding first_holding
none_holding ea lo [] v h = refl
none_holding ea lo (s ∷ segs) v h = ground (arith, none_holding ea s.end segs v.2)

-- Of the segments at the front only the last can hold the address.
last_candidate : ℕ → List SegImage → ℕ → Option SegImage
last_candidate ea segs k = if k == 0 then none else holding ea (get_elem? segs (k - 1))

last_candidate_lem :
    (ea lo : ℕ) (segs : List SegImage)
    → IsSnapshotFrom lo segs
    → last_candidate ea segs (starting_below ea segs) ≡ first_holding segs ea
unfolding last_candidate starting_below first_holding
last_candidate_lem ea lo [] v = refl
last_candidate_lem ea lo (s ∷ segs) v = ground (
  arith,
  last_candidate_lem ea s.end segs v.2,
  none_below ea s.end segs v.2,
  none_holding ea s.end segs v.2,
  next_at (starting_below ea segs),
)
  where
    next_at : (k : ℕ) → k ≢ 0 → get_elem? (s ∷ segs) k ≡ get_elem? segs (k - 1)
    next_at zero h = absurd (h refl)
    next_at (suc k) h = let e : suc k - 1 ≡ k = omega arith in rw e refl

-- On a snapshot, whose segments are sorted and apart, the binary search returns what a search
-- through all segments returns: the one segment that holds the address, or none.
pub segment_at-first_holding :
    (img : ProgramImage) (ea : ℕ)
    → IsSnapshotFrom 0 img.segs
    → segment_at img ea ≡ first_holding img.segs ea
unfolding segment_at segment_in last_candidate
segment_at-first_holding img ea v =
    ap (last_candidate ea img.segs) (
      search_loop_lem (length img.segs) img.segs ea 0 0 (length img.segs) v (omega arith)
        (starting_below-le ea img.segs) (omega arith) (omega arith))
    ∙ last_candidate_lem ea 0 img.segs v
