-- ===== src/Base/Lex.antt =====
-- Byte strings: equality and the lexicographic order of std::vector and std::string.
use Prim.Native.Nat.{ℕ}
use mathlib.Core.Path.{◌≡◌, refl}
use mathlib.Core.Bool.{Bool, true, false, ◌&&◌, ◌||◌}
use mathlib.Core.List.{List, [], ◌∷◌}
use native.Mathlib.Omega.{arith}
use viy.Base.Tests.{ltb, ◌==◌, ==_iff}

abbrev pub equal_bytes : List ℕ → List ℕ → Bool
equal_bytes [] [] = true
equal_bytes [] (b ∷ right) = false
equal_bytes (a ∷ left) [] = false
equal_bytes (a ∷ left) (b ∷ right) = a == b && equal_bytes left right

abbrev pub less_bytes : List ℕ → List ℕ → Bool
less_bytes [] [] = false
less_bytes [] (b ∷ right) = true
less_bytes (a ∷ left) [] = false
less_bytes (a ∷ left) (b ∷ right) = ltb a b || a == b && less_bytes left right

and_left : (a b : Bool) → (a && b) ≡ true → a ≡ true
and_left a b h = ground arith

and_right : (a b : Bool) → (a && b) ≡ true → b ≡ true
and_right a b h = ground arith

cons_path : (a b : ℕ) (left right : List ℕ) → a ≡ b → left ≡ right → (a ∷ left) ≡ (b ∷ right)
cons_path a b left right e f = rw (e, f) refl

pub equal_bytes→≡ : (a b : List ℕ) → equal_bytes a b ≡ true → a ≡ b
equal_bytes→≡ [] [] h = refl
equal_bytes→≡ [] (y ∷ b) h = cc
equal_bytes→≡ (x ∷ a) [] h = cc
equal_bytes→≡ (x ∷ a) (y ∷ b) h =
    cons_path x y a b ((==_iff x y).0 (and_left _ _ h)) (equal_bytes→≡ a b (and_right _ _ h))

pub equal_bytes_self : (a : List ℕ) → equal_bytes a a ≡ true
equal_bytes_self [] = refl
equal_bytes_self (x ∷ a) = ground (arith, equal_bytes_self a)

pub less_bytes_self : (a : List ℕ) → less_bytes a a ≡ false
less_bytes_self [] = refl
less_bytes_self (x ∷ a) = ground (arith, less_bytes_self a)

pub less_bytes_trans :
    (a b c : List ℕ) → less_bytes a b ≡ true → less_bytes b c ≡ true → less_bytes a c ≡ true
less_bytes_trans [] [] c h k = k
less_bytes_trans [] (y ∷ b) [] h k = cc
less_bytes_trans [] (y ∷ b) (z ∷ c) h k = refl
less_bytes_trans (x ∷ a) [] c h k = cc
less_bytes_trans (x ∷ a) (y ∷ b) [] h k = cc
less_bytes_trans (x ∷ a) (y ∷ b) (z ∷ c) h k = ground (arith, less_bytes_trans a b c)

-- Strings neither of which is less are equal.
pub less_bytes_total : (a b : List ℕ) → less_bytes a b ≡ false → less_bytes b a ≡ false → a ≡ b
less_bytes_total [] [] h k = refl
less_bytes_total [] (y ∷ b) h k = cc
less_bytes_total (x ∷ a) [] h k = cc
less_bytes_total (x ∷ a) (y ∷ b) h k =
    let e : x ≡ y = ground arith in
    cons_path x y a b e (less_bytes_total a b (ground (arith, e)) (ground (arith, e)))
