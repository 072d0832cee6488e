-- ===== src/Lifecycle/Pigeonhole.antt =====
-- More different numbers than a list has cannot all be in it: why the search for a free generation
-- ends (src/evidence_lifecycle.cpp).
use viy.Base.{
  ℕ, zero, suc, ◌≤◌, ◌<◌, ◌≡◌, ◌≢◌, true, List, [], ◌∷◌, length, ◌==◌, if◌then◌else◌, arith,
}
use viy.Base.Sets.{member}

unfoldable remove : ℕ → List ℕ → List ℕ
remove x [] = []
remove x (y ∷ ys) = let rest = remove x ys in if x == y then ys else y ∷ rest

length-remove : (x : ℕ) (ys : List ℕ) → member x ys ≡ true → length ys ≡ suc (length (remove x ys))
unfolding member remove
length-remove x [] h = cc
length-remove x (y ∷ ys) h = ground (arith, length-remove x ys)

member-remove : (x y : ℕ) (ys : List ℕ) → x ≢ y → member y ys ≡ true → member y (remove x ys) ≡ true
unfolding member remove
member-remove x y [] d h = cc
member-remove x y (z ∷ ys) d h = ground (arith, member-remove x y ys d)

pub pigeonhole :
    (n : ℕ) (f : ℕ → ℕ) (used : List ℕ)
    → ((k : ℕ) → k < n → member (f k) used ≡ true)
    → ((i j : ℕ) → i < j → j < n → f j ≢ f i)
    → n ≤ length used
pigeonhole zero f used all different = omega arith
pigeonhole (suc n) f used all different =
    let there = all n (omega arith) in
    let shorter = length-remove (f n) used there in
    let rest =
      pigeonhole n f (remove (f n) used)
        (λ k h.
          member-remove (f n) (f k) used (different k n h (omega arith)) (all k (omega arith)))
        (λ i j h k. different i j h (omega arith)) in
    omega arith
