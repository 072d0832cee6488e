-- ===== src/Base/Sets.antt =====
-- A set of numbers or of byte strings as a list without repetition: std::set.
use Prim.Native.Nat.{ℕ, suc, ◌≤◌}
use mathlib.Core.Path.{◌≡◌, sym, ◌∙◌}
use mathlib.Core.Logic.{◌≢◌}
use mathlib.Core.Bool.{Bool, true, false, ◌||◌}
use mathlib.Core.List.{List, [], ◌∷◌}
use native.Mathlib.Omega.{arith}
use viy.Base.Tests.{◌==◌, ==_iff, if◌then◌else◌, if_rule}
use viy.Base.Lists.{length}
use viy.Base.Lex.{equal_bytes}

-- std::set::find
unfoldable pub member : ℕ → List ℕ → Bool
member x [] = false
member x (y ∷ ys) = x == y || member x ys

-- std::set::insert, without the order.
unfoldable pub insert : ℕ → List ℕ → List ℕ
unfolding member
insert x used = if member x used then used else x ∷ used

abbrev pub has_text : List ℕ → List (List ℕ) → Bool
has_text x [] = false
has_text x (y ∷ ys) = equal_bytes x y || has_text x ys

abbrev pub insert_text : List ℕ → List (List ℕ) → List (List ℕ)
insert_text x texts = if has_text x texts then texts else x ∷ texts

pub member-insert :
    (x y : ℕ) (used : List ℕ) → member x used ≡ true → member x (insert y used) ≡ true
unfolding insert member
member-insert x y used h = ground arith

pub member-insert_same : (x : ℕ) (used : List ℕ) → member x (insert x used) ≡ true
unfolding insert member
member-insert_same x used =
    if_rule (λ (ys : List ℕ). member x ys ≡ true) (member x used) _ _ (λ there. there)
      (λ new. first)
  where
    first : member x (x ∷ used) ≡ true
    first = ground arith

pub length-insert : (x : ℕ) (used : List ℕ) → length (insert x used) ≤ suc (length used)
unfolding insert
length-insert x used =
    if_rule (λ (ys : List ℕ). length ys ≤ suc (length used)) (member x used) _ _
      (λ there. omega arith) (λ new. omega arith)

-- Two different members make two elements, and the other way round for lists built by insertion.
pub two_members :
    (x y : ℕ) (used : List ℕ)
    → x ≢ y
    → member x used ≡ true
    → member y used ≡ true
    → 2 ≤ length used
unfolding member
two_members x y [] d h k = absurd cc
two_members x y (z ∷ []) d h k =
    absurd (d ((==_iff x z).0 (ground arith) ∙ sym ((==_iff y z).0 (ground arith))))
two_members x y (z ∷ w ∷ used) d h k = omega arith
