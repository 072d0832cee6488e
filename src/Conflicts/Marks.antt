-- ===== src/Conflicts/Marks.antt =====
-- Which digests the loops over the buckets mark (src/evidence_store.cpp).
use viy.Base.{
  ◌≡◌, refl, sym, ◌∙◌, Bool, true, false, ◌&&◌, ◌||◌, List, [], ◌∷◌, ◌++◌, map, if◌then◌else◌, inl,
  inr, Bool-cases, arith,
}
use viy.Base.Any.{any, any-append, any_pair}
use viy.Base.Lex.{equal_bytes}
use viy.Facts.Schema.{FactPayload}
use viy.Store.Defs.{Entry}
use viy.Conflicts.Keys.{opposed}
use viy.Conflicts.Loops.{payload}
use viy.Conflicts.Index.{FactDigest, digest, mark_pair, select, not_empty, mark_opposed}
use viy.Base.{ℕ, ap, Option}
use viy.Base.Any.{any_pair-or, any_pair_same}
use viy.Base.Buckets.{same_key}
use viy.Facts.Enums.{FunctionTraitKind, returns_trait}
use viy.Facts.Schema.{function_trait}
use viy.Store.Defs.{EvidenceStore}
use viy.Conflicts.Payloads.{is_returns, is_no_return}
use viy.Conflicts.Keys.{is_returning, is_never_returning, is_returned_outcome}
use viy.Conflicts.Loops.{for_pairs, for_buckets, bucketed, in_group, any-bucketed}
use viy.Conflicts.Index.{mark_if, mark_function}

-- Is the digest among the marked?
abbrev pub marked : FactDigest → List FactDigest → Bool
marked d digests = any (equal_bytes d) digests

abbrev pub hit : FactDigest → Entry → Bool
hit d entry = equal_bytes d (digest entry)

-- A pair of entries that satisfies the test and has the digest.
abbrev pub hit_pair : FactDigest → (FactPayload → FactPayload → Bool) → Entry → Entry → Bool
hit_pair d test x y = test (payload x) (payload y) && (hit d x || hit d y)

pub marked_if :
    (d : FactDigest) (b : Bool) (x y : Entry)
    → marked d (if b then mark_pair x y else []) ≡ (b && (hit d x || hit d y))
unfolding any
marked_if d true x y = ground arith
marked_if d false x y = refl

select-not_empty :
    (p : FactPayload → Bool) (xs : List Entry)
    → not_empty (select p xs) ≡ any (λ x. p (payload x)) xs
unfolding any select
select-not_empty p [] = refl
select-not_empty p (x ∷ xs) = elim (Bool-cases (p (payload x))) [
  | inl found ↦ rw found refl
  | inr other ↦ rw other (select-not_empty p xs)
]

select-marked :
    (d : FactDigest) (p : FactPayload → Bool) (xs : List Entry)
    → marked d (map digest (select p xs)) ≡ any (λ x. p (payload x) && hit d x) xs
unfolding any select
select-marked d p [] = refl
select-marked d p (x ∷ xs) = elim (Bool-cases (p (payload x))) [
  | inl found ↦ rw (found, select-marked d p xs) refl
  | inr other ↦ rw (other, select-marked d p xs) refl
]

one_side :
    (u v w : Bool) (p q h : Entry → Bool) (xs : List Entry)
    → any (λ y. (u && q y || v && p y) && (w || h y)) xs ≡ (
        u && (w && any q xs || any (λ y. q y && h y) xs)
        || v && (w && any p xs || any (λ y. p y && h y) xs))
unfolding any
one_side u v w p q h [] = ground arith
one_side u v w p q h (x ∷ xs) = ground (arith, one_side u v w p q h xs)

some_both :
    (p h : Entry → Bool) (xs : List Entry)
    → (any (λ y. p y && h y) xs && any p xs) ≡ any (λ y. p y && h y) xs
unfolding any
some_both p h [] = refl
some_both p h (x ∷ xs) = ground (arith, some_both p h xs)

combine :
    (u v w a b c e : Bool)
    → (u && v) ≡ false
    → (c && a) ≡ c
    → (e && b) ≡ e
    → ((u && (w && b || e) || v && (w && a || c)) || (a && b) && (c || e))
      ≡ (((u || a) && (v || b)) && ((u && w || c) || (v && w || e)))
combine u v w a b c e apart f g = ground arith

-- What is opposed in some pair is opposed in the whole, with the digest.
opposed_pairs :
    (d : FactDigest) (p q : FactPayload → Bool) (xs : List Entry)
    → ((x : FactPayload) → (p x && q x) ≡ false)
    → any_pair (hit_pair d (opposed p q)) xs ≡ (
        (any (λ x. p (payload x)) xs && any (λ x. q (payload x)) xs)
        && (any (λ x. p (payload x) && hit d x) xs || any (λ x. q (payload x) && hit d x) xs))
unfolding any any_pair
opposed_pairs d p q [] apart = refl
opposed_pairs d p q (x ∷ xs) apart =
    (λ i.
      one_side (p (payload x)) (q (payload x)) (hit d x) (λ y. p (payload y)) (λ y. q (payload y))
        (hit d) xs i
      || opposed_pairs d p q xs apart i)
    ∙ combine (p (payload x)) (q (payload x)) (hit d x) (any (λ y. p (payload y)) xs)
        (any (λ y. q (payload y)) xs) (any (λ y. p (payload y) && hit d y) xs)
        (any (λ y. q (payload y) && hit d y) xs) (apart (payload x))
        (some_both (λ y. p (payload y)) (hit d) xs) (some_both (λ y. q (payload y)) (hit d) xs)

pub mark_opposed_lem :
    (d : FactDigest) (p q : FactPayload → Bool) (xs : List Entry)
    → ((x : FactPayload) → (p x && q x) ≡ false)
    → marked d (mark_opposed p q xs) ≡ any_pair (hit_pair d (opposed p q)) xs
unfolding any mark_opposed
mark_opposed_lem d p q xs apart =
    under_if (not_empty (select p xs) && not_empty (select q xs))
    ∙ (λ i.
        (select-not_empty p xs i && select-not_empty q xs i)
        && (any-append (equal_bytes d) (map digest (select p xs)) (map digest (select q xs))
              ∙ (λ j. select-marked d p xs j || select-marked d q xs j))
            i)
    ∙ sym (opposed_pairs d p q xs apart)
  where
    marks : List FactDigest
    marks = map digest (select p xs) ++ map digest (select q xs)

    under_if : (b : Bool) → marked d (if b then marks else []) ≡ (b && marked d marks)
    under_if true = refl
    under_if false = refl

pub paired :
    (d : FactDigest) (test : FactPayload → FactPayload → Bool) (key : FactPayload → Option (List ℕ))
    (store : EvidenceStore)
    → marked d (for_buckets (for_pairs (mark_if test)) (bucketed key store))
      ≡ any_pair (in_group key (hit_pair d test)) store
paired d test key store =
    any-bucketed (equal_bytes d) (mark_if test) key store
    ∙ any_pair_same _ _ store (λ x y.
      ap (λ b. same_key (key (payload x)) (key (payload y)) && b)
        (marked_if d (test (payload x) (payload y)) x y))

pub trait_apart : (trait : FunctionTraitKind) → (is_returns trait && is_no_return trait) ≡ false
trait_apart trait = elim trait as (λ k. (is_returns k && is_no_return k) ≡ false) [
  | returns_trait ↦ refl
  | _ ↦ refl
]

pub returns_apart : (p : FactPayload) → (is_returning p && is_never_returning p) ≡ false
returns_apart p = elim p as (λ k. (is_returning k && is_never_returning k) ≡ false) [
  | function_trait f ↦ trait_apart f.trait
  | _ ↦ refl
]

pub outcome_apart : (p : FactPayload) → (is_never_returning p && is_returned_outcome p) ≡ false
outcome_apart p = elim p as (λ k. (is_never_returning k && is_returned_outcome k) ≡ false) [
  | function_trait f ↦ ground arith
  | _ ↦ refl
]

-- The two tests on the evidence for one function.
abbrev pub function_pair : FactDigest → Entry → Entry → Bool
function_pair d x y =
    hit_pair d (opposed is_returning is_never_returning) x y
    || hit_pair d (opposed is_never_returning is_returned_outcome) x y

pub mark_function_lem :
    (d : FactDigest) (xs : List Entry) → marked d (mark_function xs) ≡ any_pair (function_pair d) xs
mark_function_lem d xs =
    any-append (equal_bytes d) (mark_opposed is_returning is_never_returning xs)
      (mark_opposed is_never_returning is_returned_outcome xs)
    ∙ (λ i.
        mark_opposed_lem d is_returning is_never_returning xs returns_apart i
        || mark_opposed_lem d is_never_returning is_returned_outcome xs outcome_apart i)
    ∙ sym (
        any_pair-or (hit_pair d (opposed is_returning is_never_returning))
          (hit_pair d (opposed is_never_returning is_returned_outcome)) xs)
