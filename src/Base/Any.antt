-- ===== src/Base/Any.antt =====
-- Does some element, or some pair of elements in order, satisfy a test?
use mathlib.Core.Path.{◌≡◌, refl, sym, ap, ◌∙◌}
use mathlib.Core.Bool.{Bool, false, ◌&&◌, ◌||◌}
use mathlib.Core.List.{map, List, [], ◌∷◌, ◌++◌}
use mathlib.Core.Option.{Option, none, some}
use native.Mathlib.Omega.{arith}

module _ {ℓ} {A : Type ℓ} where
  unfoldable pub any : (A → Bool) → List A → Bool
  any p [] = false
  any p (x ∷ xs) = p x || any p xs

  pub any-append : (p : A → Bool) (xs ys : List A) → any p (xs ++ ys) ≡ (any p xs || any p ys)
  unfolding any
  any-append p [] ys = refl
  any-append p (x ∷ xs) ys = ground (arith, any-append p xs ys)

  pub any_append_four :
      (p : A → Bool) (a b c d : List A)
      → any p (a ++ b ++ c ++ d) ≡ (any p a || any p b || any p c || any p d)
  any_append_four p a b c d =
      ground (arith, any-append p (a ++ b ++ c) d, any-append p (a ++ b) c, any-append p a b)

  pub any-or : (p q : A → Bool) (xs : List A) → any (λ x. p x || q x) xs ≡ (any p xs || any q xs)
  unfolding any
  any-or p q [] = refl
  any-or p q (x ∷ xs) = ground (arith, any-or p q xs)

  pub any-and : (b : Bool) (p : A → Bool) (xs : List A) → any (λ x. b && p x) xs ≡ (b && any p xs)
  unfolding any
  any-and b p [] = ground arith
  any-and b p (x ∷ xs) = ground (arith, any-and b p xs)

  pub any_same : (p q : A → Bool) (xs : List A) → ((x : A) → p x ≡ q x) → any p xs ≡ any q xs
  unfolding any
  any_same p q [] h = refl
  any_same p q (x ∷ xs) h = rw (h x, any_same p q xs h) refl

  -- Each element with each later one.
  unfoldable pub any_pair : (A → A → Bool) → List A → Bool
  unfolding any
  any_pair r [] = false
  any_pair r (x ∷ xs) = any (r x) xs || any_pair r xs

  pub any_pair-or :
      (r s : A → A → Bool) (xs : List A)
      → any_pair (λ x y. r x y || s x y) xs ≡ (any_pair r xs || any_pair s xs)
  unfolding any_pair
  any_pair-or r s [] = refl
  any_pair-or r s (x ∷ xs) = ground (arith, any-or (r x) (s x) xs, any_pair-or r s xs)

  pub any_pair_same :
      (r s : A → A → Bool) (xs : List A)
      → ((x y : A) → r x y ≡ s x y)
      → any_pair r xs ≡ any_pair s xs
  unfolding any_pair
  any_pair_same r s [] h = refl
  any_pair_same r s (x ∷ xs) h = rw (any_same (r x) (s x) xs (h x), any_pair_same r s xs h) refl

  unfoldable pub concat : List (List A) → List A
  concat [] = []
  concat (xs ∷ xss) = xs ++ concat xss

pub any-concat {ℓ} :
    {A : Type ℓ} (p : A → Bool) (xss : List (List A)) → any p (concat xss) ≡ any (any p) xss
unfolding any concat
any-concat p [] = refl
any-concat p (xs ∷ xss) = ground (arith, any-append p xs (concat xss), any-concat p xss)

-- A function of two values, where both are there.
abbrev pub both {ℓ κ μ} :
    {A : Type ℓ} {B : Type κ} {C : Type μ} → C → Option A → Option B → (A → B → C) → C
both default none b f = default
both default (some a) none f = default
both default (some a) (some b) f = f a b

pub any-both {ℓ κ μ} :
    {A : Type ℓ} {B : Type κ} {C : Type μ} (p : C → Bool) (a : Option A) (b : Option B)
    (f : A → B → List C)
    → any p (both [] a b f) ≡ both false a b (λ x y. any p (f x y))
unfolding any
any-both p none b f = refl
any-both p (some x) none f = refl
any-both p (some x) (some y) f = refl

pub any-map {ℓ κ} :
    {A : Type ℓ} {B : Type κ} (p : B → Bool) (f : A → B) (xs : List A)
    → any p (map f xs) ≡ any (λ x. p (f x)) xs
unfolding any
any-map p f [] = refl
any-map p f (x ∷ xs) = ap (λ b. p (f x) || b) (any-map p f xs)

nothing {ℓ} : {A : Type ℓ} (ys : List A) → any (λ y. false) ys ≡ false
unfolding any
nothing [] = refl
nothing (y ∷ ys) = nothing ys

no_pair {ℓ} : {A : Type ℓ} (ys : List A) → any_pair (λ x y. false) ys ≡ false
unfolding any_pair
no_pair [] = refl
no_pair (y ∷ ys) = ground (arith, nothing ys, no_pair ys)

-- The pairs of several relations.
pub any_pair_join {ℓ} :
    {A : Type ℓ} (rs : List (A → A → Bool)) (xs : List A)
    → any (λ r. any_pair r xs) rs ≡ any_pair (λ x y. any (λ r. r x y) rs) xs
unfolding any any_pair
any_pair_join [] xs = sym (no_pair xs)
any_pair_join (r ∷ rs) xs =
    ap (λ b. any_pair r xs || b) (any_pair_join rs xs)
    ∙ sym (any_pair-or r (λ x y. any (λ r. r x y) rs) xs)
