-- ===== src/Facts/Sort.antt =====
-- std::sort followed by std::unique, and the tests that a sequence is sorted and without
-- repetition (src/analysis_facts.cpp).
use viy.Base.{◌≡◌, refl, ap, ◌∙◌, Bool, true, false, not, ◌&&◌, List, [], ◌∷◌, if◌then◌else◌, arith}

module _ {ℓ} {A : Type ℓ} where
  abbrev pub insert_sorted : (A → A → Bool) → A → List A → List A
  insert_sorted less a [] = a ∷ []
  insert_sorted less a (x ∷ xs) =
      let rest = insert_sorted less a xs in if less x a then x ∷ rest else a ∷ x ∷ xs

  abbrev pub sort : (A → A → Bool) → List A → List A
  sort less [] = []
  sort less (x ∷ xs) = insert_sorted less x (sort less xs)

  -- The first of each run of equals is kept.
  abbrev pub unique_after : (A → A → Bool) → A → List A → List A
  unique_after equal kept [] = kept ∷ []
  unique_after equal kept (x ∷ xs) = elim (equal kept x) [
    | true ↦ unique_after equal kept xs
    | false ↦ kept ∷ unique_after equal x xs
  ]

  abbrev pub unique : (A → A → Bool) → List A → List A
  unique equal [] = []
  unique equal (x ∷ xs) = unique_after equal x xs

  -- No element is less than the one before it.
  abbrev pub is_sorted : (A → A → Bool) → List A → Bool
  is_sorted less [] = true
  is_sorted less (x ∷ []) = true
  is_sorted less (x ∷ y ∷ xs) = not (less y x) && is_sorted less (y ∷ xs)

  -- No two neighbours satisfy a relation.
  abbrev pub no_adjacent : (A → A → Bool) → List A → Bool
  no_adjacent related [] = true
  no_adjacent related (x ∷ []) = true
  no_adjacent related (x ∷ y ∷ xs) = not (related x y) && no_adjacent related (y ∷ xs)

  insert_first :
      (less : A → A → Bool) (x : A) (xs : List A)
      → is_sorted less (x ∷ xs) ≡ true
      → insert_sorted less x xs ≡ x ∷ xs
  insert_first less x [] h = refl
  insert_first less x (y ∷ xs) h = ground arith

  sorted_tail :
      (less : A → A → Bool) (x : A) (xs : List A)
      → is_sorted less (x ∷ xs) ≡ true
      → is_sorted less xs ≡ true
  sorted_tail less x [] h = refl
  sorted_tail less x (y ∷ xs) h = ground arith

  pub sort-sorted :
      (less : A → A → Bool) (xs : List A) → is_sorted less xs ≡ true → sort less xs ≡ xs
  sort-sorted less [] h = refl
  sort-sorted less (x ∷ xs) h =
      ap (insert_sorted less x) (sort-sorted less xs (sorted_tail less x xs h))
      ∙ insert_first less x xs h

  unique_after_all :
      (equal : A → A → Bool) (x : A) (xs : List A)
      → no_adjacent equal (x ∷ xs) ≡ true
      → unique_after equal x xs ≡ x ∷ xs
  unique_after_all equal x [] h = refl
  unique_after_all equal x (y ∷ xs) h = ground (arith, unique_after_all equal y xs)

  pub unique-no_adjacent :
      (equal : A → A → Bool) (xs : List A) → no_adjacent equal xs ≡ true → unique equal xs ≡ xs
  unique-no_adjacent equal [] h = refl
  unique-no_adjacent equal (x ∷ xs) h = unique_after_all equal x xs h
