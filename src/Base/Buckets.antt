-- ===== src/Base/Buckets.antt =====
-- Elements grouped by a key in a map of vectors, and a search over the pairs of each group. The
-- groups stand in the order in which their keys came up, and only their contents are used.
use Prim.Native.Nat.{ℕ}
use mathlib.Core.Path.{◌≡◌, refl, sym, ap, ◌∙◌}
use mathlib.Core.Logic.{inl, inr}
use mathlib.Core.Bool.{Bool, true, false, ◌&&◌, ◌||◌}
use mathlib.Core.List.{List, [], ◌∷◌, ◌++◌}
use mathlib.Core.Option.{Option, none, some}
use native.Mathlib.Omega.{arith}
use viy.Base.Tests.{if◌then◌else◌, Bool-cases}
use viy.Base.Lex.{equal_bytes, equal_bytes→≡, equal_bytes_self}
use viy.Base.Any.{any, any-append, any-or, any_same, any_pair}

-- A group: the numbers of its key, and its elements.
pub record Bucket {ℓ} (A : Type ℓ) : Type ℓ where
  pub key : List ℕ
  pub elements : List A

abbrev pub same_key : Option (List ℕ) → Option (List ℕ) → Bool
same_key none k = false
same_key (some j) none = false
same_key (some j) (some k) = equal_bytes j k

module _ {ℓ} {A : Type ℓ} where
  -- map[key].push_back(x)
  unfoldable pub push : List ℕ → A → List (Bucket A) → List (Bucket A)
  push key x [] = record { key = key; elements = x ∷ [] } ∷ []
  push key x (b ∷ buckets) =
      let rest = push key x buckets in
      if equal_bytes b.key key
      then record b { elements = b.elements ++ x ∷ [] } ∷ buckets
      else b ∷ rest

  abbrev pub push_at : Option (List ℕ) → A → List (Bucket A) → List (Bucket A)
  push_at none x buckets = buckets
  push_at (some key) x buckets = push key x buckets

  unfoldable pub group : (A → Option (List ℕ)) → List A → List (Bucket A) → List (Bucket A)
  unfolding push
  group key [] buckets = buckets
  group key (x ∷ xs) buckets = group key xs (push_at (key x) x buckets)

  -- Some pair of some group.
  unfoldable pub any_bucket : (A → A → Bool) → List (Bucket A) → Bool
  unfolding any_pair
  any_bucket r [] = false
  any_bucket r (b ∷ buckets) = any_pair r b.elements || any_bucket r buckets

  any_pair-snoc :
      (r : A → A → Bool) (xs : List A) (y : A)
      → any_pair r (xs ++ y ∷ []) ≡ (any_pair r xs || any (λ x. r x y) xs)
  unfolding any_pair any
  any_pair-snoc r [] y = refl
  any_pair-snoc r (x ∷ xs) y = ground (arith, any-append (r x) xs (y ∷ []), any_pair-snoc r xs y)

  -- The elements of the groups with a key.
  unfoldable grouped : List ℕ → List (Bucket A) → List A
  grouped key [] = []
  grouped key (b ∷ buckets) =
      let rest = grouped key buckets in if equal_bytes b.key key then b.elements else rest

  any_bucket-push :
      (r : A → A → Bool) (key : List ℕ) (y : A) (buckets : List (Bucket A))
      → any_bucket r (push key y buckets)
        ≡ (any_bucket r buckets || any (λ x. r x y) (grouped key buckets))
  unfolding any_bucket push grouped any any_pair
  any_bucket-push r key y [] = refl
  any_bucket-push r key y (b ∷ buckets) = elim (Bool-cases (equal_bytes b.key key)) [
    | inl here ↦
        rw (here, any_pair-snoc r b.elements y)
          (regroup (any_pair r b.elements) (any (λ x. r x y) b.elements) (any_bucket r buckets))
    | inr other ↦ rw (other, any_bucket-push r key y buckets) (ground arith)
  ]
    where
      regroup : (a b c : Bool) → ((a || b) || c) ≡ ((a || c) || b)
      regroup a b c = ground arith

  grouped-push :
      (p : A → Bool) (k key : List ℕ) (y : A) (buckets : List (Bucket A))
      → any p (grouped k (push key y buckets))
        ≡ (any p (grouped k buckets) || equal_bytes key k && p y)
  unfolding push grouped any
  grouped-push p k key y [] = elim (Bool-cases (equal_bytes key k)) [
    | inl here ↦ rw here (ground arith)
    | inr other ↦ rw other refl
  ]
  grouped-push p k key y (b ∷ buckets) = elim (Bool-cases (equal_bytes b.key key)) [
    | inl here ↦
        let same : equal_bytes key k ≡ equal_bytes b.key k =
          ap (λ j. equal_bytes j k) (sym (equal_bytes→≡ b.key key here)) in
        elim (Bool-cases (equal_bytes b.key k)) [
          | inl wanted ↦ rw (here, same, wanted, any-append p b.elements (y ∷ [])) (ground arith)
          | inr other ↦ rw (here, same, other) (ground arith)
        ]
    | inr later ↦ elim (Bool-cases (equal_bytes b.key k)) [
      | inl wanted ↦
          let apart : equal_bytes key k ≡ false =
            ap (λ j. equal_bytes key j) (sym (equal_bytes→≡ b.key k wanted))
            ∙ apart_sym key b.key later in
          rw (later, wanted, apart) (ground arith)
      | inr other ↦ rw (later, other) (grouped-push p k key y buckets)
    ]
  ]
    where
      clash : true ≡ false → ⊥
      clash e = cc

      apart_sym : (j l : List ℕ) → equal_bytes l j ≡ false → equal_bytes j l ≡ false
      apart_sym j l h = elim (Bool-cases (equal_bytes j l)) [
        | inr different ↦ different
        | inl same ↦ absurd (
            clash
              (sym (equal_bytes_self l) ∙ ap (equal_bytes l) (sym (equal_bytes→≡ j l same)) ∙ h))
      ]

  -- Does an element of the group satisfy a test, where there is a group?
  abbrev in_group : (A → Bool) → Option (List ℕ) → List (Bucket A) → Bool
  in_group p none buckets = false
  in_group p (some key) buckets = any p (grouped key buckets)

  any_bucket-push_at :
      (r : A → A → Bool) (k : Option (List ℕ)) (y : A) (buckets : List (Bucket A))
      → any_bucket r (push_at k y buckets)
        ≡ (any_bucket r buckets || in_group (λ x. r x y) k buckets)
  any_bucket-push_at r none y buckets = or_false (any_bucket r buckets)
    where
      or_false : (b : Bool) → b ≡ (b || false)
      or_false b = ground arith
  any_bucket-push_at r (some key) y buckets = any_bucket-push r key y buckets

  in_group-push_at :
      (p : A → Bool) (j k : Option (List ℕ)) (y : A) (buckets : List (Bucket A))
      → in_group p j (push_at k y buckets) ≡ (in_group p j buckets || same_key k j && p y)
  in_group-push_at p none none y buckets = refl
  in_group-push_at p none (some key) y buckets = refl
  in_group-push_at p (some j) none y buckets = or_false (any p (grouped j buckets))
    where
      or_false : (b : Bool) → b ≡ (b || false)
      or_false b = ground arith
  in_group-push_at p (some j) (some key) y buckets = grouped-push p j key y buckets

  any_bucket-group_from :
      (r : A → A → Bool) (key : A → Option (List ℕ)) (xs : List A) (buckets : List (Bucket A))
      → any_bucket r (group key xs buckets) ≡ (
          (any_bucket r buckets || any (λ x. in_group (λ w. r w x) (key x) buckets) xs)
          || any_pair (λ x y. same_key (key x) (key y) && r x y) xs)
  unfolding group any any_pair
  any_bucket-group_from r key [] buckets = ground arith
  any_bucket-group_from r key (x ∷ xs) buckets =
      let pushed = push_at (key x) x buckets in
      let later =
        any_same (λ z. in_group (λ w. r w z) (key z) pushed)
          (λ z. in_group (λ w. r w z) (key z) buckets || same_key (key x) (key z) && r x z) xs
          (λ z. in_group-push_at (λ w. r w z) (key z) (key x) x buckets) in
      any_bucket-group_from r key xs pushed
      ∙ (λ i.
          (any_bucket-push_at r (key x) x buckets i || later i)
          || any_pair (λ x y. same_key (key x) (key y) && r x y) xs)
      ∙ (λ i.
          ((any_bucket r buckets || in_group (λ w. r w x) (key x) buckets)
            || any-or (λ z. in_group (λ w. r w z) (key z) buckets)
                (λ z. same_key (key x) (key z) && r x z) xs i)
          || any_pair (λ x y. same_key (key x) (key y) && r x y) xs)
      ∙ regroup (any_bucket r buckets) (in_group (λ w. r w x) (key x) buckets)
          (any (λ z. in_group (λ w. r w z) (key z) buckets) xs)
          (any (λ z. same_key (key x) (key z) && r x z) xs)
          (any_pair (λ x y. same_key (key x) (key y) && r x y) xs)
    where
      regroup : (a b c d e : Bool) → (((a || b) || (c || d)) || e) ≡ ((a || (b || c)) || (d || e))
      regroup a b c d e = ground arith

  in_no_group : (p : A → Bool) (k : Option (List ℕ)) → in_group p k [] ≡ false
  unfolding grouped any
  in_no_group p none = refl
  in_no_group p (some k) = refl

  nothing_grouped :
      (r : A → A → Bool) (key : A → Option (List ℕ)) (xs : List A)
      → any (λ x. in_group (λ w. r w x) (key x) []) xs ≡ false
  unfolding any
  nothing_grouped r key [] = refl
  nothing_grouped r key (x ∷ xs) =
      rw (in_no_group (λ w. r w x) (key x), nothing_grouped r key xs) refl

  -- The search over the groups finds exactly the pairs of the whole with the same key.
  pub any_bucket-group :
      (r : A → A → Bool) (key : A → Option (List ℕ)) (xs : List A)
      → any_bucket r (group key xs []) ≡ any_pair (λ x y. same_key (key x) (key y) && r x y) xs
  unfolding any_bucket
  any_bucket-group r key xs =
      any_bucket-group_from r key xs []
      ∙ ap (λ b. b || any_pair (λ x y. same_key (key x) (key y) && r x y) xs)
          (nothing_grouped r key xs)
