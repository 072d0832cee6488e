-- ===== src/Facts/Bytes.antt =====
-- The canonical writer and reader (Writer, Reader and the helpers on options and enumerations of
-- src/analysis_facts.cpp). A write takes the bytes that are written behind it; a read gives the
-- value and the bytes that are left, or nothing where the source fails.
use viy.Base.{
  ℕ, zero, suc, ◌+◌, ◌-◌, ◌*◌, ◌/◌, ◌%◌, ◌^◌, Bool, true, false, ◌||◌, Option, none, some, List, [],
  ◌∷◌, ◌++◌, length, take, drop, get_elem?, ltb, leb, ◌==◌, if◌then◌else◌,
}
use viy.Base.Int.{ℤ, pos, negsuc}

infixl 5 ◌>>=◌
abbrev pub ◌>>=◌ {ℓ κ} : {A : Type ℓ} {B : Type κ} → Option A → (A → Option B) → Option B
none >>= f = none
some a >>= f = f a

pub record FactCodecLimits : Type 0 where
  pub max_fact_bytes : ℕ
  pub max_string_bytes : ℕ
  pub max_vector_items : ℕ

unfoldable pub write_bool : Bool → List ℕ → List ℕ
write_bool true tail = 1 ∷ tail
write_bool false tail = 0 ∷ tail

-- The lowest n bytes of a value, the highest first.
unfoldable pub write_be : ℕ → ℕ → List ℕ → List ℕ
write_be zero value tail = tail
write_be (suc n) value tail = (value / 256 ^ n % 256) ∷ write_be n value tail

-- static_cast<uint64_t>(int64_t)
unfoldable pub to_unsigned : ℤ → ℕ
to_unsigned (pos n) = n
to_unsigned (negsuc n) = 2 ^ 64 - 1 - n

unfoldable pub write_i64 : ℤ → List ℕ → List ℕ
unfolding write_be to_unsigned
write_i64 value tail = write_be 8 (to_unsigned value) tail

-- string and blob, whose test of the length is in `writable`
unfoldable pub write_blob : List ℕ → List ℕ → List ℕ
unfolding write_be
write_blob bytes tail = write_be 4 (length bytes) (bytes ++ tail)

unfoldable pub writable : List ℕ → Bool
writable bytes = leb (length bytes) (2 ^ 32 - 1)

unfoldable pub write_optional {ℓ} :
    {A : Type ℓ} → (A → List ℕ → List ℕ) → Option A → List ℕ → List ℕ
write_optional write none tail = 0 ∷ tail
write_optional write (some a) tail = 1 ∷ write a tail

unfoldable pub read_u8 : List ℕ → Option (ℕ × List ℕ)
read_u8 [] = none
read_u8 (b ∷ bytes) = some (b, bytes)

unfoldable pub read_bool : List ℕ → Option (Bool × List ℕ)
read_bool [] = none
read_bool (b ∷ bytes) = if ltb 1 b then none else some (if b == 0 then false else true, bytes)

unfoldable pub read_be : ℕ → ℕ → List ℕ → Option (ℕ × List ℕ)
read_be zero out bytes = some (out, bytes)
read_be (suc n) out [] = none
read_be (suc n) out (b ∷ bytes) = read_be n (out * 256 + b) bytes

abbrev pub read_u16 : List ℕ → Option (ℕ × List ℕ)
read_u16 bytes = read_be 2 0 bytes

abbrev pub read_u32 : List ℕ → Option (ℕ × List ℕ)
read_u32 bytes = read_be 4 0 bytes

abbrev pub read_u64 : List ℕ → Option (ℕ × List ℕ)
read_u64 bytes = read_be 8 0 bytes

unfoldable pub from_unsigned : ℕ → ℤ
from_unsigned raw = if leb raw (2 ^ 63 - 1) then pos raw else negsuc (2 ^ 64 - 1 - raw)

unfoldable pub read_i64 : List ℕ → Option (ℤ × List ℕ)
unfolding from_unsigned
read_i64 bytes = do (raw, rest) ← read_u64 bytes; some (from_unsigned raw, rest)

-- string and blob, each with its own limit
unfoldable pub read_sized : ℕ → List ℕ → Option (List ℕ × List ℕ)
read_sized limit bytes = do
  (size, rest) ← read_u32 bytes
  if ltb limit size || ltb (length rest) size then none else some (take size rest, drop size rest)

unfoldable pub read_count : FactCodecLimits → List ℕ → Option (ℕ × List ℕ)
read_count limits bytes = do
  (out, rest) ← read_u32 bytes
  if ltb limits.max_vector_items out then none else some (out, rest)

unfoldable pub read_optional {ℓ} :
    {A : Type ℓ} → (List ℕ → Option (A × List ℕ)) → List ℕ → Option (Option A × List ℕ)
read_optional read [] = none
read_optional read (present ∷ bytes) =
    if ltb 1 present
    then none
    else if present == 0
    then some (none, bytes)
    else (read bytes >>= λ found. some (some found.0, found.1))

-- The values of an enumeration are numbered from `first` on.
unfoldable pub read_enum {ℓ} : {A : Type ℓ} → List A → ℕ → List ℕ → Option (A × List ℕ)
read_enum values first [] = none
read_enum values first (b ∷ bytes) =
    if ltb b first then none else (get_elem? values (b - first) >>= λ value. some (value, bytes))

-- The four letters before a blob and its version.
unfoldable pub read_magic : List ℕ → List ℕ → Option (List ℕ)
read_magic [] bytes = some bytes
read_magic (m ∷ expected) [] = none
read_magic (m ∷ expected) (b ∷ bytes) = if b == m then read_magic expected bytes else none

unfoldable pub read_version : List ℕ → Option (List ℕ)
read_version bytes = do (version, rest) ← read_u16 bytes; if version == 1 then some rest else none
