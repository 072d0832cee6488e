-- ===== src/Facts/ItemRead.antt =====
-- Reading options and counted items that were written (src/analysis_facts.cpp).
use viy.Base.{ℕ, ◌≡◌, refl, Option, some, List, [], ◌∷◌, length, All}
use viy.Facts.Schema.{DispatchCase, CallValue}
use viy.Base.Int.{ℤ}
use viy.Facts.Bytes.{
  FactCodecLimits, write_be, write_i64, write_blob, write_optional, read_u64, read_i64,
  read_optional,
}
use viy.Facts.BytesRead.{
  IsI64, IfSome, read_u32-write_be, read_u64-write_be, read_i64-write_i64, read_sized-write_blob,
  read_count-write_be, read_optional-write_optional,
}
use viy.Facts.Encode.{write_cases, write_call_values}
use viy.Facts.Decode.{read_items, read_case, read_cases, read_call_value, read_call_values}
use viy.Facts.Fits.{IsU64, Counted, CallValueFits}

pub read_optional_u64 :
    (value : Option ℕ) (tail : List ℕ)
    → IfSome IsU64 value
    → read_optional read_u64 (write_optional (write_be 8) value tail) ≡ some (value, tail)
read_optional_u64 value tail h =
    read_optional-write_optional read_u64 (write_be 8) IsU64 value tail
      (λ v rest b. read_u64-write_be v rest b) h

pub read_optional_i64 :
    (value : Option ℤ) (tail : List ℕ)
    → IfSome IsI64 value
    → read_optional read_i64 (write_optional write_i64 value tail) ≡ some (value, tail)
read_optional_i64 value tail h =
    read_optional-write_optional read_i64 write_i64 IsI64 value tail
      (λ v rest b. read_i64-write_i64 v rest b) h

read_case_items :
    (cases : List DispatchCase) (tail : List ℕ)
    → All (λ c. IfSome IsU64 c.selector × IsU64 c.target) cases
    → read_items read_case (length cases) (write_cases cases tail) ≡ some (cases, tail)
unfolding read_items read_case write_cases
read_case_items [] tail h = refl
read_case_items (c ∷ cases) tail (h, hs) =
    rw
      (
        read_optional_u64 c.selector (write_be 8 c.target (write_cases cases tail)) h.0,
        read_u64-write_be c.target (write_cases cases tail) h.1,
        read_case_items cases tail hs,
      )
      refl

pub read_cases-write_cases :
    (limits : FactCodecLimits) (cases : List DispatchCase) (tail : List ℕ)
    → Counted limits (λ c. IfSome IsU64 c.selector × IsU64 c.target) cases
    → read_cases limits (write_be 4 (length cases) (write_cases cases tail)) ≡ some (cases, tail)
unfolding read_cases Counted
read_cases-write_cases limits cases tail (bits, le, h) =
    rw (read_count-write_be limits (length cases) (write_cases cases tail) bits le)
      (read_case_items cases tail h)

read_call_value_items :
    (limits : FactCodecLimits) (values : List CallValue) (tail : List ℕ)
    → All (CallValueFits limits) values
    → read_items (read_call_value limits) (length values) (write_call_values values tail)
      ≡ some (values, tail)
unfolding read_items read_call_value write_call_values CallValueFits
read_call_value_items limits [] tail h = refl
read_call_value_items limits (v ∷ values) tail ((o, l, b), hs) =
    let rest = write_call_values values tail in
    rw
      (
        read_u32-write_be v.ordinal (write_blob v.location (write_blob v.bytes rest)) o,
        read_sized-write_blob limits.max_string_bytes v.location (write_blob v.bytes rest) l.0 l.1,
        read_sized-write_blob limits.max_fact_bytes v.bytes rest b.0 b.1,
        read_call_value_items limits values tail hs,
      )
      refl

pub read_call_values-write_call_values :
    (limits : FactCodecLimits) (values : List CallValue) (tail : List ℕ)
    → Counted limits (CallValueFits limits) values
    → read_call_values limits (write_be 4 (length values) (write_call_values values tail))
      ≡ some (values, tail)
unfolding read_call_values Counted
read_call_values-write_call_values limits values tail (bits, le, h) =
    rw (read_count-write_be limits (length values) (write_call_values values tail) bits le)
      (read_call_value_items limits values tail h)
