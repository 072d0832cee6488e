-- ===== src/Conflicts/Sweep.antt =====
-- The sweep over the regions in the order of their starts finds every pair that shares a byte
-- (src/evidence_store.cpp).
use viy.Base.{
  ℕ, ◌≤◌, ◌<◌, max, min, ◌≡◌, refl, sym, ◌∙◌, Bool, true, false, ◌&&◌, ◌||◌, none, some, List, [],
  ◌∷◌, All, ltb, leb, inl, inr, Bool-cases, Option-cases, arith,
}
use viy.Base.Any.{any, any-append, any_pair, both}
use viy.Facts.Schema.{CodeRegionFact}
use viy.Facts.Sort.{sort}
use viy.Store.Defs.{Entry}
use viy.Conflicts.Payloads.{get_code_region}
use viy.Conflicts.Loops.{payload, Region, regions, region_less, sweep_later, sweep}
use viy.Conflicts.Sorted.{Ordered, All-later, sort-Ordered, Extended, sort-Extended, any_pair-sort}

abbrev share : Region → Region → Bool
share x y = ltb (max x.fact.start y.fact.start) (min x.fact.end y.fact.end)

-- Two regions that share a byte, with a test.
abbrev sharing : (Region → Region → Bool) → Region → Region → Bool
sharing r x y = share x y && r x y

-- Behind the first that begins at the end or later, no region shares a byte.
none_shares :
    (r : Region → Region → Bool) (x : Region) (ys : List Region)
    → All (λ (y : Region). x.fact.end ≤ y.fact.start) ys
    → any (sharing r x) ys ≡ false
unfolding any
none_shares r x [] hs = refl
none_shares r x (y ∷ ys) hs =
    rw (apart x.fact.start y.fact.start x.fact.end y.fact.end hs.0, none_shares r x ys hs.1) refl
  where
    apart : (a b c e : ℕ) → c ≤ b → ltb (max a b) (min c e) ≡ false
    apart a b c e h = ground arith

module _ {C : Type 0} (p : C → Bool) (f : Region → Region → List C) where
  any-sweep_later :
      (x : Region) (ys : List Region)
      → Extended x
      → All Extended ys
      → All (λ (y : Region). x.fact.start ≤ y.fact.start) ys
      → Ordered ys
      → any p (sweep_later f x ys) ≡ any (sharing (λ y z. any p (f y z)) x) ys
  unfolding any sweep_later Ordered
  any-sweep_later x [] e es ls o = refl
  any-sweep_later x (y ∷ ys) e es ls o = elim (Bool-cases (leb x.fact.end y.fact.start)) [
    | inl behind ↦
        let first : x.fact.end ≤ y.fact.start = ground arith in
        rw
          (
            behind,
            none_shares (λ y z. any p (f y z)) x (y ∷ ys)
                (first, All-later x.fact.end y.fact.start ys first o.0),
          )
          refl
    | inr within ↦ rw within (
        any-append p (f x y) (sweep_later f x ys) ∙ (λ i.
          sym (overlap x.fact.start y.fact.start x.fact.end y.fact.end ls.0 es.0 within) i
            && any p (f x y)
          || any-sweep_later x ys e es.1 ls.1 o.1 i))
  ]
    where
      overlap : (a b c e : ℕ) → a ≤ b → b < e → leb c b ≡ false → ltb (max a b) (min c e) ≡ true
      overlap a b c e h k w = ground arith

  any-sweep :
      (xs : List Region)
      → All Extended xs
      → Ordered xs
      → any p (sweep f xs) ≡ any_pair (sharing (λ y z. any p (f y z))) xs
  unfolding any any_pair sweep Ordered
  any-sweep [] es o = refl
  any-sweep (x ∷ xs) es o =
      any-append p (sweep_later f x xs) (sweep f xs)
      ∙ (λ i. any-sweep_later x xs es.0 es.1 o.0 o.1 i || any-sweep xs es.1 o.1 i)

-- A relation of the regions of two entries, where both are regions.
abbrev pub of_regions : (Region → Region → Bool) → Entry → Entry → Bool
of_regions r x y =
    both false (get_code_region (payload x)) (get_code_region (payload y))
      (λ a b. r (record { entry = x; fact = a }) (record { entry = y; fact = b }))

any-regions :
    (r : Region → Region → Bool) (x : Entry) (f : CodeRegionFact) (ys : List Entry)
    → get_code_region (payload x) ≡ some f
    → any (r (record { entry = x; fact = f })) (regions ys) ≡ any (of_regions r x) ys
unfolding any regions
any-regions r x f [] e = refl
any-regions r x f (y ∷ ys) e = elim (Option-cases (get_code_region (payload y))) [
  | inl other ↦ rw (other, e, any-regions r x f ys e) refl
  | inr (g, found) ↦ rw (found, e, any-regions r x f ys e) refl
]

none_paired :
    (r : Region → Region → Bool) (x : Entry) (ys : List Entry)
    → get_code_region (payload x) ≡ none
    → any (of_regions r x) ys ≡ false
unfolding any
none_paired r x [] e = refl
none_paired r x (y ∷ ys) e = rw (e, none_paired r x ys e) refl

any_pair-regions :
    (r : Region → Region → Bool) (xs : List Entry)
    → any_pair r (regions xs) ≡ any_pair (of_regions r) xs
unfolding any any_pair regions
any_pair-regions r [] = refl
any_pair-regions r (x ∷ xs) = elim (Option-cases (get_code_region (payload x))) [
  | inl other ↦ rw (other, none_paired r x xs other) (any_pair-regions r xs)
  | inr (f, found) ↦ rw found (λ i. any-regions r x f xs found i || any_pair-regions r xs i)
]

-- The sweep over the regions of a ledger finds what there is in some two that share a byte.
pub sweep-regions :
    {C : Type 0} (p : C → Bool) (f : Region → Region → List C) (xs : List Entry)
    → ((x y : Region) → any p (f x y) ≡ any p (f y x))
    → All Extended (regions xs)
    → any p (sweep f (sort region_less (regions xs)))
      ≡ any_pair
          (of_regions (λ x y.
            ltb (max x.fact.start y.fact.start) (min x.fact.end y.fact.end) && any p (f x y)))
          xs
sweep-regions p f xs symmetric es =
    any-sweep p f (sort region_less (regions xs)) (sort-Extended (regions xs) es)
      (sort-Ordered (regions xs))
    ∙ any_pair-sort region_less (sharing (λ y z. any p (f y z))) (regions xs) sharing_sym
    ∙ any_pair-regions (sharing (λ y z. any p (f y z))) xs
  where
    overlap : (a b c e : ℕ) → ltb (max a b) (min c e) ≡ ltb (max b a) (min e c)
    overlap a b c e = ground arith

    sharing_sym :
        (x y : Region) → sharing (λ y z. any p (f y z)) x y ≡ sharing (λ y z. any p (f y z)) y x
    sharing_sym x y =
        λ i. overlap x.fact.start y.fact.start x.fact.end y.fact.end i && symmetric x y i
