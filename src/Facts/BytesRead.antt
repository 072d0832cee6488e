-- ===== src/Facts/BytesRead.antt =====
-- Each read gives back what the write of the same type wrote, and leaves what stands behind it
-- (src/analysis_facts.cpp).
use viy.Base.{
  ℕ, ◌+◌, ◌-◌, ◌*◌, ◌/◌, ◌%◌, ◌^◌, ◌≤◌, ◌<◌, ◌≡◌, refl, ap, Bool, true, false, Option, none, some,
  List, [], ◌∷◌, ◌++◌, arith, length, length-append, take, drop, get_elem?, ltb, leb, ◌==◌,
}
use viy.Base.Int.{ℤ, pos, negsuc}
use viy.Facts.Bytes.{
  FactCodecLimits, write_bool, write_be, to_unsigned, write_i64, write_blob, write_optional,
  read_bool, read_be, read_u16, read_u32, read_u64, from_unsigned, read_i64, read_sized, read_count,
  read_optional, read_enum, read_magic, read_version,
}

pub read_bool-write_bool :
    (b : Bool) (tail : List ℕ) → read_bool (write_bool b tail) ≡ some (b, tail)
unfolding read_bool write_bool
read_bool-write_bool true tail = refl
read_bool-write_bool false tail = refl

pub read_u16-write_be :
    (v : ℕ) (tail : List ℕ) → v < 2 ^ 16 → read_u16 (write_be 2 v tail) ≡ some (v, tail)
unfolding read_be write_be
read_u16-write_be v tail h =
    let e : (0 * 256 + v / 256 % 256) * 256 + v / 1 % 256 ≡ v = omega arith in
    ap (λ x. some (x, tail)) e

pub read_u32-write_be :
    (v : ℕ) (tail : List ℕ) → v < 2 ^ 32 → read_u32 (write_be 4 v tail) ≡ some (v, tail)
unfolding read_be write_be
read_u32-write_be v tail h = ap (λ x. some (x, tail)) (omega arith)

pub read_u64-write_be :
    (v : ℕ) (tail : List ℕ) → v < 2 ^ 64 → read_u64 (write_be 8 v tail) ≡ some (v, tail)
unfolding read_be write_be
read_u64-write_be v tail h = ap (λ x. some (x, tail)) (omega arith)

-- The range of int64_t.
unfoldable pub IsI64 : ℤ → Type 0
IsI64 (pos n) = n < 2 ^ 63
IsI64 (negsuc n) = n < 2 ^ 63

from_unsigned-to_unsigned : (z : ℤ) → IsI64 z → from_unsigned (to_unsigned z) ≡ z
unfolding from_unsigned to_unsigned IsI64
from_unsigned-to_unsigned (pos n) h = ground arith
from_unsigned-to_unsigned (negsuc n) h =
    let e : leb (2 ^ 64 - 1 - n) (2 ^ 63 - 1) ≡ false = ground arith in
    let f : 2 ^ 64 - 1 - (2 ^ 64 - 1 - n) ≡ n = omega arith in rw (e, f) refl

to_unsigned_bound : (z : ℤ) → IsI64 z → to_unsigned z < 2 ^ 64
unfolding to_unsigned IsI64
to_unsigned_bound (pos n) h = omega arith
to_unsigned_bound (negsuc n) h = omega arith

pub read_i64-write_i64 :
    (z : ℤ) (tail : List ℕ) → IsI64 z → read_i64 (write_i64 z tail) ≡ some (z, tail)
unfolding read_i64 write_i64
read_i64-write_i64 z tail h =
    rw
      (
        read_u64-write_be (to_unsigned z) tail (to_unsigned_bound z h),
        from_unsigned-to_unsigned z h,
      )
      refl

pub take-length-append {ℓ} : {A : Type ℓ} (xs ys : List A) → take (length xs) (xs ++ ys) ≡ xs
take-length-append [] ys = refl
take-length-append (x ∷ xs) ys = ap (◌∷◌ x) (take-length-append xs ys)

pub drop-length-append {ℓ} : {A : Type ℓ} (xs ys : List A) → drop (length xs) (xs ++ ys) ≡ ys
drop-length-append [] ys = refl
drop-length-append (x ∷ xs) ys = drop-length-append xs ys

pub read_sized-write_blob :
    (limit : ℕ) (bytes tail : List ℕ)
    → length bytes < 2 ^ 32
    → length bytes ≤ limit
    → read_sized limit (write_blob bytes tail) ≡ some (bytes, tail)
unfolding read_sized write_blob
read_sized-write_blob limit bytes tail h le =
    let e : ltb limit (length bytes) ≡ false = ground arith in
    let f : ltb (length (bytes ++ tail)) (length bytes) ≡ false =
      ground (arith, length-append bytes tail) in
    rw
      (
        read_u32-write_be (length bytes) (bytes ++ tail) h,
        e,
        f,
        take-length-append bytes tail,
        drop-length-append bytes tail,
      )
      refl

pub read_count-write_be :
    (limits : FactCodecLimits) (n : ℕ) (tail : List ℕ)
    → n < 2 ^ 32
    → n ≤ limits.max_vector_items
    → read_count limits (write_be 4 n tail) ≡ some (n, tail)
unfolding read_count
read_count-write_be limits n tail h le =
    let e : ltb limits.max_vector_items n ≡ false = ground arith in
    rw (read_u32-write_be n tail h, e) refl

-- What holds of the value, when there is one.
unfoldable pub IfSome {ℓ κ} : {A : Type ℓ} → (A → Type κ) → Option A → Type κ
IfSome P none = Unit
IfSome P (some a) = P a

pub read_optional-write_optional {ℓ} :
    {A : Type ℓ} (read : List ℕ → Option (A × List ℕ)) (write : A → List ℕ → List ℕ)
    (P : A → Type 0) (value : Option A) (tail : List ℕ)
    → ((a : A) (rest : List ℕ) → P a → read (write a rest) ≡ some (a, rest))
    → IfSome P value
    → read_optional read (write_optional write value tail) ≡ some (value, tail)
unfolding read_optional write_optional IfSome
read_optional-write_optional read write P none tail back p = refl
read_optional-write_optional read write P (some a) tail back p = rw (back a tail p) refl

pub read_enum-code {ℓ} :
    {A : Type ℓ} (values : List A) (first code : ℕ) (value : A) (tail : List ℕ)
    → first ≤ code
    → get_elem? values (code - first) ≡ some value
    → read_enum values first (code ∷ tail) ≡ some (value, tail)
unfolding read_enum
read_enum-code values first code value tail le e =
    let f : ltb code first ≡ false = ground arith in rw (f, e) refl

pub read_magic-append : (magic bytes : List ℕ) → read_magic magic (magic ++ bytes) ≡ some bytes
unfolding read_magic
read_magic-append [] bytes = refl
read_magic-append (m ∷ magic) bytes =
    let e : (m == m) ≡ true = ground arith in rw e (read_magic-append magic bytes)

pub read_version-write_be : (tail : List ℕ) → read_version (write_be 2 1 tail) ≡ some tail
unfolding read_version
read_version-write_be tail = rw (read_u16-write_be 1 tail (omega arith)) refl
