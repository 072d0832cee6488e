-- ===== src/Runtime/PointersFound.antt =====
-- The merged ranges hold what the given ranges hold, and the search finds it
-- (the pointer ranges of collect_string_groups in src/runtime_enrich_core.cpp).
use viy.Base.{
  ℕ, ◌≤◌, ◌<◌, ◌≡◌, refl, ap, ◌∙◌, sym, Bool, true, false, not, ◌&&◌, ◌||◌, inl, inr, none, List,
  [], ◌∷◌, ◌++◌, arith, max, ltb, leb, ◌==◌, Bool-cases, Option-cases, if_rule,
}
use viy.Runtime.Pointers.{
  AddrRange, range_before, insert_range, sort_ranges, merge_step, merge_into, merge_ranges,
  last_end, ends_after, is_pointer, mapped_ranges, in_range, in_ranges,
}

unfoldable Ascending : ℕ → List AddrRange → Type 0
Ascending lo [] = Unit
Ascending lo ((start, end) ∷ ranges) = (lo ≤ start) × Ascending start ranges

unfoldable Apart : ℕ → List AddrRange → Type 0
Apart lo [] = Unit
Apart lo ((start, end) ∷ ranges) = (lo ≤ start) × (start < end) × Apart end ranges

lower_bound :
    (lo hi : ℕ) (ranges : List AddrRange) → lo ≤ hi → Ascending hi ranges → Ascending lo ranges
unfolding Ascending
lower_bound lo hi [] le h = tt
lower_bound lo hi ((start, end) ∷ ranges) le (l, h) = (omega arith, h)

insert_range-Ascending :
    (lo start end : ℕ) (ranges : List AddrRange)
    → lo ≤ start
    → Ascending lo ranges
    → Ascending lo (insert_range (start, end) ranges)
unfolding Ascending insert_range range_before
insert_range-Ascending lo start end [] le h = (le, tt)
insert_range-Ascending lo start end ((s, e) ∷ ranges) le (l, h) =
    if_rule (Ascending lo) (range_before (start, end) (s, e)) _ _ (λ yes. (le, (ground arith, h)))
      (λ no. (l, insert_range-Ascending s start end ranges (ground arith) h))

sort_ranges-Ascending : (ranges : List AddrRange) → Ascending 0 (sort_ranges ranges)
unfolding sort_ranges Ascending
sort_ranges-Ascending [] = tt
sort_ranges-Ascending ((start, end) ∷ ranges) =
    insert_range-Ascending 0 start end (sort_ranges ranges) (omega arith)
      (sort_ranges-Ascending ranges)

or_swap : (a b c : Bool) → (b || (a || c)) ≡ (a || (b || c))
or_swap true true c = refl
or_swap true false c = refl
or_swap false true c = refl
or_swap false false c = refl

or_assoc : (a b c : Bool) → ((a || b) || c) ≡ (a || (b || c))
or_assoc true b c = refl
or_assoc false b c = refl

in_range_empty : (start end v : ℕ) → leb end start ≡ true → in_range (start, end) v ≡ false
unfolding in_range
in_range_empty start end v h = ground arith

in_range_joined :
    (first last start end v : ℕ)
    → first ≤ start
    → leb start last ≡ true
    → in_range (first, max last end) v ≡ (in_range (first, last) v || in_range (start, end) v)
unfolding in_range
in_range_joined first last start end v l h = ground arith

in_ranges-insert_range :
    (r : AddrRange) (ranges : List AddrRange) (v : ℕ)
    → in_ranges (insert_range r ranges) v ≡ (in_range r v || in_ranges ranges v)
unfolding insert_range in_ranges
in_ranges-insert_range r [] v = refl
in_ranges-insert_range r (s ∷ ranges) v =
    let ih = in_ranges-insert_range r ranges v in
    if_rule (λ x. in_ranges x v ≡ (in_range r v || in_ranges (s ∷ ranges) v)) (range_before r s) _ _
      (λ yes. refl) (λ no. rw ih (or_swap (in_range r v) (in_range s v) (in_ranges ranges v)))

in_ranges-sort_ranges :
    (ranges : List AddrRange) (v : ℕ) → in_ranges (sort_ranges ranges) v ≡ in_ranges ranges v
unfolding sort_ranges in_ranges
in_ranges-sort_ranges [] v = refl
in_ranges-sort_ranges (r ∷ ranges) v =
    in_ranges-insert_range r (sort_ranges ranges) v
    ∙ ap (◌||◌ (in_range r v)) (in_ranges-sort_ranges ranges v)

merge_into-Apart :
    (lo first last : ℕ) (ranges : List AddrRange)
    → lo ≤ first
    → first < last
    → Ascending first ranges
    → Apart lo (merge_into (first, last) ranges)
unfolding merge_into merge_step Apart Ascending
merge_into-Apart lo first last [] le lt h = (le, lt, tt)
merge_into-Apart lo first last ((start, end) ∷ ranges) le lt (l, h) =
    let up = lower_bound first start ranges l h in
    if_rule (λ (step : List AddrRange × AddrRange). Apart lo (step.0 ++ merge_into step.1 ranges))
      (leb end start) _ _ (λ empty. merge_into-Apart lo first last ranges le lt up)
      (λ full.
        if_rule
          (λ (step : List AddrRange × AddrRange). Apart lo (step.0 ++ merge_into step.1 ranges))
          (leb start last) _ _
          (λ joins. merge_into-Apart lo first (max last end) ranges le (omega arith) up)
          (λ parts.
            (le, lt, merge_into-Apart last start end ranges (ground arith) (ground arith) h)))

in_ranges-merge_into :
    (first last : ℕ) (ranges : List AddrRange) (v : ℕ)
    → first < last
    → Ascending first ranges
    → in_ranges (merge_into (first, last) ranges) v
      ≡ (in_range (first, last) v || in_ranges ranges v)
unfolding merge_into merge_step in_ranges in_range Ascending
in_ranges-merge_into first last [] v lt h = refl
in_ranges-merge_into first last ((start, end) ∷ ranges) v lt (l, h) =
    let up = lower_bound first start ranges l h in
    let goal : Bool = in_range (first, last) v || in_ranges ((start, end) ∷ ranges) v in
    if_rule
      (λ (step : List AddrRange × AddrRange).
        in_ranges (step.0 ++ merge_into step.1 ranges) v ≡ goal)
      (leb end start) _ _
      (λ empty.
        in_ranges-merge_into first last ranges v lt up
        ∙ sym (rw (in_range_empty start end v empty) refl))
      (λ full.
        if_rule
          (λ (step : List AddrRange × AddrRange).
            in_ranges (step.0 ++ merge_into step.1 ranges) v ≡ goal)
          (leb start last) _ _
          (λ joins.
            in_ranges-merge_into first (max last end) ranges v (omega arith) up
            ∙ rw (in_range_joined first last start end v l joins) (
                or_assoc (in_range (first, last) v) (in_range (start, end) v) (in_ranges ranges v)))
          (λ parts.
            ap (◌||◌ (in_range (first, last) v))
              (in_ranges-merge_into start end ranges v (ground arith) h)))

in_ranges-merge_ranges :
    (lo : ℕ) (ranges : List AddrRange) (v : ℕ)
    → Ascending lo ranges
    → in_ranges (merge_ranges ranges) v ≡ in_ranges ranges v
unfolding merge_ranges in_ranges Ascending
in_ranges-merge_ranges lo [] v h = refl
in_ranges-merge_ranges lo ((start, end) ∷ ranges) v (l, h) =
    if_rule (λ x. in_ranges x v ≡ in_ranges ((start, end) ∷ ranges) v) (leb end start) _ _
      (λ empty.
        in_ranges-merge_ranges start ranges v h ∙ sym (rw (in_range_empty start end v empty) refl))
      (λ full. in_ranges-merge_into start end ranges v (ground arith) h)

merge_ranges-Apart :
    (lo : ℕ) (ranges : List AddrRange) → Ascending lo ranges → Apart lo (merge_ranges ranges)
unfolding merge_ranges Ascending Apart
merge_ranges-Apart lo [] h = tt
merge_ranges-Apart lo ((start, end) ∷ ranges) (l, h) =
    if_rule (Apart lo) (leb end start) _ _
      (λ empty. merge_ranges-Apart lo ranges (lower_bound lo start ranges l h))
      (λ full. merge_into-Apart lo start end ranges l (ground arith) h)

below_all :
    (lo v : ℕ) (ranges : List AddrRange)
    → Apart lo ranges
    → v < lo
    → (last_end ranges v ≡ none) × (in_ranges ranges v ≡ false)
unfolding last_end in_ranges in_range Apart
below_all lo v [] h lt = (refl, refl)
below_all lo v ((start, end) ∷ ranges) (l, w, h) lt =
    let none_above = (below_all end v ranges h (omega arith)).1 in
    let e : ltb v start ≡ true = ground arith in
    let f : leb start v ≡ false = ground arith in (rw e refl, rw (f, none_above) refl)

search_finds :
    (lo : ℕ) (ranges : List AddrRange) (v : ℕ)
    → Apart lo ranges
    → ends_after v (last_end ranges v) ≡ in_ranges ranges v
unfolding last_end in_ranges in_range Apart
search_finds lo [] v h = refl
search_finds lo ((start, end) ∷ ranges) v (l, w, h) =
    let ih = search_finds end ranges v h in
    elim (Bool-cases (ltb v end)) [
      | inl before ↦
          rw
            (
              (below_all end v ranges h (ground arith)).0,
              (below_all end v ranges h (ground arith)).1,
            )
            (ground arith)
      | inr after ↦ elim (Option-cases (last_end ranges v)) [
        | inl e ↦ ground arith
        | inr (x, e) ↦ ground arith
      ]
    ]

-- A value is taken for a pointer exactly when it is not zero and one of the given ranges holds it,
-- in whatever order they are given and however they overlap.
pub is_pointer-mapped_ranges :
    (pointer_ranges : List AddrRange) (value : ℕ)
    → is_pointer (mapped_ranges pointer_ranges) value
      ≡ (not (value == 0) && in_ranges pointer_ranges value)
unfolding is_pointer mapped_ranges
is_pointer-mapped_ranges pointer_ranges value =
    let sorted = sort_ranges pointer_ranges in
    let asc = sort_ranges-Ascending pointer_ranges in
    rw
      (
        search_finds 0 (merge_ranges sorted) value (merge_ranges-Apart 0 sorted asc),
        in_ranges-merge_ranges 0 sorted value asc,
        in_ranges-sort_ranges pointer_ranges value,
      )
      (ground arith)
