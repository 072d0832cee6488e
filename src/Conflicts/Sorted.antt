-- ===== src/Conflicts/Sorted.antt =====
-- The regions in the order of their starts (src/evidence_store.cpp).
use viy.Base.{
  ℕ, ◌≤◌, ◌<◌, ◌≡◌, refl, ap, ◌∙◌, Bool, ◌||◌, List, [], ◌∷◌, All, if_rule, inl, inr, Bool-cases,
  arith,
}
use viy.Base.Any.{any, any_pair}
use viy.Facts.Sort.{sort, insert_sorted}
use viy.Conflicts.Loops.{Region, region_less}

-- A symmetric relation holds of some pair in whatever order the elements are sorted.
module _ {ℓ} {A : Type ℓ} where
  pub any-insert_sorted :
      (less : A → A → Bool) (p : A → Bool) (a : A) (xs : List A)
      → any p (insert_sorted less a xs) ≡ (p a || any p xs)
  unfolding any
  any-insert_sorted less p a [] = refl
  any-insert_sorted less p a (x ∷ xs) = elim (Bool-cases (less x a)) [
    | inl after ↦ rw (after, any-insert_sorted less p a xs) (ground arith)
    | inr before ↦ rw before refl
  ]

  pub any-sort :
      (less : A → A → Bool) (p : A → Bool) (xs : List A) → any p (sort less xs) ≡ any p xs
  unfolding any
  any-sort less p [] = refl
  any-sort less p (x ∷ xs) =
      any-insert_sorted less p x (sort less xs) ∙ ap (λ b. p x || b) (any-sort less p xs)

  pub any_pair-insert_sorted :
      (less r : A → A → Bool) (a : A) (xs : List A)
      → ((x y : A) → r x y ≡ r y x)
      → any_pair r (insert_sorted less a xs) ≡ (any (r a) xs || any_pair r xs)
  unfolding any any_pair
  any_pair-insert_sorted less r a [] symmetric = refl
  any_pair-insert_sorted less r a (x ∷ xs) symmetric = elim (Bool-cases (less x a)) [
    | inl after ↦
        rw
          (
            after,
            any-insert_sorted less (r x) a xs,
            any_pair-insert_sorted less r a xs symmetric,
            symmetric x a,
          )
          (ground arith)
    | inr before ↦ rw before refl
  ]

  pub any_pair-sort :
      (less r : A → A → Bool) (xs : List A)
      → ((x y : A) → r x y ≡ r y x)
      → any_pair r (sort less xs) ≡ any_pair r xs
  unfolding any any_pair
  any_pair-sort less r [] symmetric = refl
  any_pair-sort less r (x ∷ xs) symmetric =
      any_pair-insert_sorted less r x (sort less xs) symmetric
      ∙ (λ i. any-sort less (r x) xs i || any_pair-sort less r xs symmetric i)

-- Each region starts no later than those behind it.
unfoldable pub Ordered : List Region → Type 0
Ordered [] = Unit
Ordered (x ∷ xs) = All (λ (y : Region). x.fact.start ≤ y.fact.start) xs × Ordered xs

pub All-insert_sorted :
    (P : Region → Type 0) (a : Region) (xs : List Region)
    → P a
    → All P xs
    → All P (insert_sorted region_less a xs)
All-insert_sorted P a [] h hs = (h, tt)
All-insert_sorted P a (x ∷ xs) h hs =
    if_rule (All P) (region_less x a) _ _ (λ after. (hs.0, All-insert_sorted P a xs h hs.1))
      (λ before. (h, hs))

pub All-later :
    (m n : ℕ) (xs : List Region)
    → m ≤ n
    → All (λ (y : Region). n ≤ y.fact.start) xs
    → All (λ (y : Region). m ≤ y.fact.start) xs
All-later m n [] h hs = tt
All-later m n (x ∷ xs) h hs = (le_trans m n x.fact.start h hs.0, All-later m n xs h hs.1)
  where
    le_trans : (a b c : ℕ) → a ≤ b → b ≤ c → a ≤ c
    le_trans a b c f g = omega arith

pub insert_sorted-Ordered :
    (a : Region) (xs : List Region) → Ordered xs → Ordered (insert_sorted region_less a xs)
unfolding Ordered
insert_sorted-Ordered a [] o = (tt, tt)
insert_sorted-Ordered a (x ∷ xs) o =
    if_rule Ordered (region_less x a) _ _
      (λ after. (
        All-insert_sorted (λ (y : Region). x.fact.start ≤ y.fact.start) a xs (ground arith) o.0,
        insert_sorted-Ordered a xs o.1,
      ))
      (λ before.
        let first : a.fact.start ≤ x.fact.start = ground arith in
        ((first, All-later a.fact.start x.fact.start xs first o.0), o))

pub sort-Ordered : (xs : List Region) → Ordered (sort region_less xs)
unfolding Ordered
sort-Ordered [] = tt
sort-Ordered (x ∷ xs) = insert_sorted-Ordered x (sort region_less xs) (sort-Ordered xs)

-- A region is not empty, as validate_payload asks.
abbrev pub Extended : Region → Type 0
Extended x = x.fact.start < x.fact.end

pub sort-Extended : (xs : List Region) → All Extended xs → All Extended (sort region_less xs)
sort-Extended [] hs = tt
sort-Extended (x ∷ xs) hs =
    All-insert_sorted Extended x (sort region_less xs) hs.0 (sort-Extended xs hs.1)
