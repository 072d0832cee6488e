-- ===== src/Conflicts/Loops.antt =====
-- The loops that look at pairs of entries: over a bucket, over all buckets, and over the regions in the
-- order of their starts (contradicted_payload_digests and detect_conflicts of
-- src/evidence_store.cpp). What is done with a pair gives a list.
use viy.Base.{
  ℕ, ◌≡◌, refl, ap, ◌∙◌, Bool, ◌&&◌, ◌||◌, Option, none, some, List, [], ◌∷◌, ◌++◌, ◌==◌, ltb, leb,
  if◌then◌else◌,
}
use viy.Base.Any.{any, any-append, any_pair}
use viy.Base.Buckets.{Bucket, group, same_key, any_bucket, any_bucket-group}
use viy.Facts.Schema.{FactPayload, CodeRegionFact}
use viy.Store.Defs.{Entry, EvidenceStore}
use viy.Conflicts.Payloads.{get_code_region}

abbrev pub payload : Entry → FactPayload
payload entry = entry.value.payload

module _ {C : Type 0} where
  -- The inner loop, over the entries behind one.
  unfoldable pub for_later : (Entry → Entry → List C) → Entry → List Entry → List C
  for_later f left [] = []
  for_later f left (right ∷ rest) = f left right ++ for_later f left rest

  unfoldable pub for_pairs : (Entry → Entry → List C) → List Entry → List C
  unfolding for_later
  for_pairs f [] = []
  for_pairs f (left ∷ rest) = for_later f left rest ++ for_pairs f rest

  unfoldable pub for_buckets : (List Entry → List C) → List (Bucket Entry) → List C
  for_buckets f [] = []
  for_buckets f (bucket ∷ buckets) = f bucket.elements ++ for_buckets f buckets

abbrev pub bucketed : (FactPayload → Option (List ℕ)) → EvidenceStore → List (Bucket Entry)
bucketed key store = group (λ entry. key (payload entry)) store []

pub record Region : Type 0 where
  pub entry : Entry
  pub fact : CodeRegionFact

abbrev pub add_region : Entry → Option CodeRegionFact → List Region → List Region
add_region entry none regions = regions
add_region entry (some fact) regions = record { entry = entry; fact = fact } ∷ regions

unfoldable pub regions : List Entry → List Region
regions [] = []
regions (entry ∷ entries) = add_region entry (get_code_region (payload entry)) (regions entries)

-- The sort is stable, which stands for the comparison of the indices.
abbrev pub region_less : Region → Region → Bool
region_less left right =
    ltb left.fact.start right.fact.start
    || left.fact.start == right.fact.start && ltb left.fact.end right.fact.end

module _ {C : Type 0} where
  -- The inner loop stops at the first region that begins behind the end.
  unfoldable pub sweep_later : (Region → Region → List C) → Region → List Region → List C
  sweep_later f left [] = []
  sweep_later f left (right ∷ rest) =
      let others = sweep_later f left rest in
      if leb left.fact.end right.fact.start then [] else f left right ++ others

  unfoldable pub sweep : (Region → Region → List C) → List Region → List C
  unfolding sweep_later
  sweep f [] = []
  sweep f (left ∷ rest) = sweep_later f left rest ++ sweep f rest

  any-for_later :
      (p : C → Bool) (f : Entry → Entry → List C) (x : Entry) (ys : List Entry)
      → any p (for_later f x ys) ≡ any (λ y. any p (f x y)) ys
  unfolding any for_later
  any-for_later p f x [] = refl
  any-for_later p f x (y ∷ ys) =
      any-append p (f x y) (for_later f x ys)
      ∙ ap (λ b. any p (f x y) || b) (any-for_later p f x ys)

  pub any-for_pairs :
      (p : C → Bool) (f : Entry → Entry → List C) (xs : List Entry)
      → any p (for_pairs f xs) ≡ any_pair (λ x y. any p (f x y)) xs
  unfolding any any_pair for_pairs
  any-for_pairs p f [] = refl
  any-for_pairs p f (x ∷ xs) =
      any-append p (for_later f x xs) (for_pairs f xs)
      ∙ (λ i. any-for_later p f x xs i || any-for_pairs p f xs i)

  pub any-for_buckets :
      (p : C → Bool) (f : List Entry → List C) (r : Entry → Entry → Bool)
      (buckets : List (Bucket Entry))
      → ((xs : List Entry) → any p (f xs) ≡ any_pair r xs)
      → any p (for_buckets f buckets) ≡ any_bucket r buckets
  unfolding any any_bucket for_buckets
  any-for_buckets p f r [] h = refl
  any-for_buckets p f r (b ∷ buckets) h =
      any-append p (f b.elements) (for_buckets f buckets)
      ∙ (λ i. h b.elements i || any-for_buckets p f r buckets h i)

-- In one group, with a test.
abbrev pub in_group :
    (FactPayload → Option (List ℕ)) → (Entry → Entry → Bool) → Entry → Entry → Bool
in_group key r x y = same_key (key (payload x)) (key (payload y)) && r x y

pub any-bucketed :
    {C : Type 0} (p : C → Bool) (f : Entry → Entry → List C) (key : FactPayload → Option (List ℕ))
    (store : EvidenceStore)
    → any p (for_buckets (for_pairs f) (bucketed key store))
      ≡ any_pair (in_group key (λ x y. any p (f x y))) store
any-bucketed p f key store =
    any-for_buckets p (for_pairs f) (λ x y. any p (f x y)) (bucketed key store) (any-for_pairs p f)
    ∙ any_bucket-group (λ x y. any p (f x y)) (λ x. key (payload x)) store
