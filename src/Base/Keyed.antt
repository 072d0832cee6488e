-- ===== src/Base/Keyed.antt =====
-- Lists that are kept sorted by a byte-string key: std::map, and std::lower_bound with insert.
use Prim.Native.Nat.{ℕ}
use mathlib.Core.Path.{◌≡◌, refl, sym, ◌∙◌, subst}
use mathlib.Core.Logic.{inl, inr}
use mathlib.Core.Bool.{Bool, true, false, ◌||◌}
use mathlib.Core.List.{List, [], ◌∷◌, map}
use mathlib.Core.Option.{Option, none, some}
use native.Mathlib.Omega.{arith}
use viy.Base.Tests.{if◌then◌else◌, Bool-cases, if_rule}
use viy.Base.Lists.{All}
use viy.Base.Lex.{
  equal_bytes, less_bytes, equal_bytes→≡, equal_bytes_self, less_bytes_self, less_bytes_trans,
  less_bytes_total,
}

module _ {ℓ} {A : Type ℓ} (key : A → List ℕ) where
  abbrev pub find : List ℕ → List A → Option A
  find k [] = none
  find k (x ∷ xs) = if equal_bytes (key x) k then some x else find k xs

  abbrev pub has : List ℕ → List A → Bool
  has k [] = false
  has k (x ∷ xs) = equal_bytes (key x) k || has k xs

  -- At the place of a key: `f` gets the element that is there.
  abbrev pub place : List ℕ → (Option A → A) → List A → List A
  place k f [] = f none ∷ []
  place k f (x ∷ xs) =
      let rest = place k f xs in
      if less_bytes (key x) k
      then x ∷ rest
      else if equal_bytes (key x) k
      then f (some x) ∷ xs
      else f none ∷ x ∷ xs

  -- Strictly ascending keys.
  abbrev pub Sorted : List A → Type ℓ
  Sorted [] = Unit
  Sorted (x ∷ xs) = All (λ y. less_bytes (key x) (key y) ≡ true) xs × Sorted xs

  All-above :
      (k j : List ℕ) (xs : List A)
      → less_bytes k j ≡ true
      → All (λ y. less_bytes j (key y) ≡ true) xs
      → All (λ y. less_bytes k (key y) ≡ true) xs
  All-above k j [] h a = tt
  All-above k j (x ∷ xs) h (b, a) = (less_bytes_trans k j (key x) h b, All-above k j xs h a)

  -- What holds of all elements holds after one is placed, when `f` keeps it at that key.
  pub All-place {κ} :
      (P : A → Type κ) (k : List ℕ) (f : Option A → A) (xs : List A)
      → P (f none)
      → ((x : A) → key x ≡ k → P x → P (f (some x)))
      → All P xs
      → All P (place k f xs)
  All-place P k f [] new old a = (new, tt)
  All-place P k f (x ∷ xs) new old (b, a) =
      if_rule (All P) (less_bytes (key x) k) _ _ (λ less. (b, All-place P k f xs new old a))
        (λ not_less.
          if_rule (All P) (equal_bytes (key x) k) _ _
            (λ same. (old x (equal_bytes→≡ (key x) k same) b, a)) (λ other. (new, (b, a))))

  greater :
      (k j : List ℕ) → less_bytes j k ≡ false → equal_bytes j k ≡ false → less_bytes k j ≡ true
  greater k j h e = elim (Bool-cases (less_bytes k j)) [
    | inl less ↦ less
    | inr more ↦ absurd (
        differ (equal_bytes_self j)
          (subst (λ x. equal_bytes j x ≡ false) (less_bytes_total k j more h) e))
  ]
    where
      differ : equal_bytes j j ≡ true → equal_bytes j j ≡ false → ⊥
      differ t f = cc

  pub place-Sorted :
      (k : List ℕ) (f : Option A → A) (xs : List A)
      → ((m : Option A) → key (f m) ≡ k)
      → Sorted xs
      → Sorted (place k f xs)
  place-Sorted k f [] keys s = (tt, tt)
  place-Sorted k f (x ∷ xs) keys (a, s) =
      if_rule Sorted (less_bytes (key x) k) _ _
        (λ less. (
          All-place (λ y. less_bytes (key x) (key y) ≡ true) k f xs (rw keys less)
              (λ z e b. rw keys less) a,
          place-Sorted k f xs keys s,
        ))
        (λ not_less.
          if_rule Sorted (equal_bytes (key x) k) _ _
            (λ same. (
              subst (λ j. All (λ y. less_bytes j (key y) ≡ true) xs)
                  (equal_bytes→≡ (key x) k same ∙ sym (keys (some x))) a,
              s,
            ))
            (λ other.
              let above = greater k (key x) not_less other in
              (
                subst (λ j. All (λ y. less_bytes j (key y) ≡ true) (x ∷ xs)) (sym (keys none))
                    (above, All-above k (key x) xs above a),
                (a, s),
              )))

  unequal_below :
      (k j : List ℕ) → less_bytes k j ≡ true → (equal_bytes j k ≡ false) × (equal_bytes k j ≡ false)
  unequal_below k j h = (
    no_path (λ e. subst (λ x. less_bytes k x ≡ true) e h),
    no_path (λ e. subst (λ x. less_bytes k x ≡ true) (sym e) h),
  )
    where
      irreflexive : less_bytes k k ≡ true → ⊥
      irreflexive t = ground (arith, less_bytes_self k)

      no_path : {a b : List ℕ} → (a ≡ b → less_bytes k k ≡ true) → equal_bytes a b ≡ false
      no_path {a} {b} back = elim (Bool-cases (equal_bytes a b)) [
        | inl same ↦ absurd (irreflexive (back (equal_bytes→≡ a b same)))
        | inr other ↦ other
      ]

  pub find_below :
      (k : List ℕ) (xs : List A) → All (λ y. less_bytes k (key y) ≡ true) xs → find k xs ≡ none
  find_below k [] a = refl
  find_below k (x ∷ xs) (b, a) = rw (unequal_below k (key x) b).0 (find_below k xs a)

  pub has_below :
      (k : List ℕ) (xs : List A) → All (λ y. less_bytes k (key y) ≡ true) xs → has k xs ≡ false
  has_below k [] a = refl
  has_below k (x ∷ xs) (b, a) = rw ((unequal_below k (key x) b).0, has_below k xs a) refl

  -- The element that was placed is found under its key.
  pub find-place_same :
      (k : List ℕ) (f : Option A → A) (xs : List A)
      → ((m : Option A) → key (f m) ≡ k)
      → Sorted xs
      → find k (place k f xs) ≡ some (f (find k xs))
  find-place_same k f [] keys s = rw (keys none, equal_bytes_self k) refl
  find-place_same k f (x ∷ xs) keys (a, s) =
      if_rule (λ ys. find k ys ≡ some (f (find k (x ∷ xs)))) (less_bytes (key x) k) _ _
        (λ less. rw (unequal_below (key x) k less).1 (find-place_same k f xs keys s))
        (λ not_less.
          if_rule (λ ys. find k ys ≡ some (f (find k (x ∷ xs)))) (equal_bytes (key x) k) _ _
            (λ same. rw (keys (some x), equal_bytes_self k, same) refl)
            (λ other.
              let absent =
                find_below k xs (All-above k (key x) xs (greater k (key x) not_less other) a) in
              rw (keys none, equal_bytes_self k, other, absent) refl))

  -- The others are found as before.
  pub find-place_other :
      (j k : List ℕ) (f : Option A → A) (xs : List A)
      → ((m : Option A) → key (f m) ≡ k)
      → equal_bytes k j ≡ false
      → find j (place k f xs) ≡ find j xs
  find-place_other j k f [] keys e = rw (keys none, e) refl
  find-place_other j k f (x ∷ xs) keys e =
      if_rule (λ ys. find j ys ≡ find j (x ∷ xs)) (less_bytes (key x) k) _ _
        (λ less. rw (find-place_other j k f xs keys e) refl)
        (λ not_less.
          if_rule (λ ys. find j ys ≡ find j (x ∷ xs)) (equal_bytes (key x) k) _ _
            (λ same. rw (keys (some x), equal_bytes→≡ (key x) k same, e) refl)
            (λ other. rw (keys none, e) refl))

  pub has-place :
      (j k : List ℕ) (f : Option A → A) (xs : List A)
      → ((m : Option A) → key (f m) ≡ k)
      → has j (place k f xs) ≡ (equal_bytes k j || has j xs)
  has-place j k f [] keys = rw (keys none) refl
  has-place j k f (x ∷ xs) keys =
      if_rule (λ ys. has j ys ≡ (equal_bytes k j || has j (x ∷ xs))) (less_bytes (key x) k) _ _
        (λ less. rw (has-place j k f xs keys) (ground arith))
        (λ not_less.
          if_rule (λ ys. has j ys ≡ (equal_bytes k j || has j (x ∷ xs))) (equal_bytes (key x) k) _ _
            (λ same. rw (keys (some x), equal_bytes→≡ (key x) k same) (ground arith))
            (λ other. rw (keys none) refl))

  has_self : (x : A) (xs : List A) → has (key x) (x ∷ xs) ≡ true
  has_self x xs = rw (equal_bytes_self (key x)) refl

  true-false : (b : Bool) → b ≡ true → b ≡ false → ⊥
  true-false b t f = ground arith

  heads :
      (x y : A) (xs ys : List A)
      → All (λ z. less_bytes (key x) (key z) ≡ true) xs
      → All (λ z. less_bytes (key y) (key z) ≡ true) ys
      → ((k : List ℕ) → has k (x ∷ xs) ≡ has k (y ∷ ys))
      → key x ≡ key y
  heads x y xs ys a b same = elim (Bool-cases (less_bytes (key x) (key y))) [
    | inl less ↦ absurd (
        true-false _ (sym (same (key x)) ∙ has_self x xs)
          (has_below (key x) (y ∷ ys) (less, All-above (key x) (key y) ys less b)))
    | inr not_less ↦ elim (Bool-cases (less_bytes (key y) (key x))) [
      | inl more ↦ absurd (
          true-false _ (same (key y) ∙ has_self y ys)
            (has_below (key y) (x ∷ xs) (more, All-above (key y) (key x) xs more a)))
      | inr not_more ↦ less_bytes_total (key x) (key y) not_less not_more
    ]
  ]

  tails :
      (x y : A) (xs ys : List A)
      → key x ≡ key y
      → All (λ z. less_bytes (key x) (key z) ≡ true) xs
      → All (λ z. less_bytes (key y) (key z) ≡ true) ys
      → ((k : List ℕ) → has k (x ∷ xs) ≡ has k (y ∷ ys))
      → (k : List ℕ) → has k xs ≡ has k ys
  tails x y xs ys e a b same k = elim (Bool-cases (equal_bytes (key x) k)) [
    | inl here ↦
        let at_x = equal_bytes→≡ (key x) k here in
        subst (λ j. has j xs ≡ false) at_x (has_below (key x) xs a)
        ∙ sym (subst (λ j. has j ys ≡ false) (sym e ∙ at_x) (has_below (key y) ys b))
    | inr elsewhere ↦
        let not_y : equal_bytes (key y) k ≡ false =
          subst (λ j. equal_bytes j k ≡ false) e elsewhere in
        ground (arith, same k)
  ]

  -- A sorted list is determined, up to its keys, by which keys it has.
  pub keys_determined :
      (xs ys : List A)
      → Sorted xs
      → Sorted ys
      → ((k : List ℕ) → has k xs ≡ has k ys)
      → map key xs ≡ map key ys
  keys_determined [] [] s t same = refl
  keys_determined [] (y ∷ ys) s t same =
      absurd (ground (arith, same (key y), equal_bytes_self (key y)))
  keys_determined (x ∷ xs) [] s t same =
      absurd (ground (arith, same (key x), equal_bytes_self (key x)))
  keys_determined (x ∷ xs) (y ∷ ys) (a, s) (b, t) same =
      let e = heads x y xs ys a b same in
      let rest = keys_determined xs ys s t (tails x y xs ys e a b same) in λ i. e i ∷ rest i
