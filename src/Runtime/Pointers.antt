-- ===== src/Runtime/Pointers.antt =====
-- The address ranges that pointers point into: sorted, merged and searched (the first part of
-- collect_string_groups in src/runtime_enrich_core.cpp). The search for the last range that starts
-- at most at the value walks the list where the source halves it.
use viy.Base.{
  ℕ, Bool, false, ◌&&◌, ◌||◌, Option, none, some, List, [], ◌∷◌, ◌++◌, max, ltb, leb, ◌==◌,
  if◌then◌else◌,
}

abbrev pub AddrRange : Type 0
AddrRange = ℕ × ℕ

-- The order of std::pair.
unfoldable pub range_before : AddrRange → AddrRange → Bool
range_before (a, b) (c, d) = ltb a c || a == c && ltb b d

unfoldable pub insert_range : AddrRange → List AddrRange → List AddrRange
unfolding range_before
insert_range r [] = r ∷ []
insert_range r (s ∷ ranges) =
    let rest = insert_range r ranges in if range_before r s then r ∷ s ∷ ranges else s ∷ rest

unfoldable pub sort_ranges : List AddrRange → List AddrRange
unfolding insert_range
sort_ranges [] = []
sort_ranges (r ∷ ranges) = insert_range r (sort_ranges ranges)

-- The loop that merges, from the back of `mapped` on: `back` is its last range. Empty ranges are
-- skipped.
unfoldable pub merge_step : AddrRange → AddrRange → List AddrRange × AddrRange
merge_step (first, last) (start, end) =
    if leb end start
    then ([], (first, last))
    else if leb start last
    then ([], (first, max last end))
    else ((first, last) ∷ [], (start, end))

unfoldable pub merge_into : AddrRange → List AddrRange → List AddrRange
unfolding merge_step
merge_into back [] = back ∷ []
merge_into back (r ∷ ranges) = (merge_step back r).0 ++ merge_into (merge_step back r).1 ranges

unfoldable pub merge_ranges : List AddrRange → List AddrRange
unfolding merge_into
merge_ranges [] = []
merge_ranges ((start, end) ∷ ranges) =
    if leb end start then merge_ranges ranges else merge_into (start, end) ranges

-- upper_bound and the range before it: the end of the last range that starts at `value` or below.
unfoldable pub last_end : List AddrRange → ℕ → Option ℕ
last_end [] value = none
last_end ((start, end) ∷ ranges) value =
    if ltb value start
    then none
    else elim (last_end ranges value) [ none ↦ some end | some e ↦ some e ]

abbrev pub ends_after : ℕ → Option ℕ → Bool
ends_after value none = false
ends_after value (some end) = ltb value end

unfoldable pub is_pointer : List AddrRange → ℕ → Bool
unfolding last_end
is_pointer mapped value = if value == 0 then false else ends_after value (last_end mapped value)

unfoldable pub mapped_ranges : List AddrRange → List AddrRange
unfolding sort_ranges merge_ranges
mapped_ranges pointer_ranges = merge_ranges (sort_ranges pointer_ranges)

-- Some range has the value.
unfoldable pub in_range : AddrRange → ℕ → Bool
in_range (start, end) value = leb start value && ltb value end

unfoldable pub in_ranges : List AddrRange → ℕ → Bool
unfolding in_range
in_ranges [] value = false
in_ranges (r ∷ ranges) value = in_range r value || in_ranges ranges value
