-- ===== src/Facts/Fits.antt =====
-- The facts that the canonical bytes can hold under given limits (src/analysis_facts.hpp): numbers in
-- the range of their type, lengths within the limits.
use viy.Base.{ℕ, ◌^◌, ◌<◌, ◌≤◌, List, All, length}
use viy.Facts.Schema.{
  Evidence, CallValue, FactPayload, code_target, branch_reachability, memory_access, memory_value,
  string_candidate, function_candidate, function_trait, code_region, dispatch_map, cfg_candidate,
  function_outcome, register_value, call_observation,
}
use viy.Facts.Bytes.{FactCodecLimits}
use viy.Facts.BytesRead.{IsI64, IfSome}

abbrev pub IsU64 : ℕ → Type 0
IsU64 v = v < 2 ^ 64

-- Its length has 32 bits and is within a limit.
abbrev pub Sized : ℕ → List ℕ → Type 0
Sized limit bytes = (length bytes < 2 ^ 32) × (length bytes ≤ limit)

unfoldable pub Counted {ℓ} : {A : Type ℓ} → FactCodecLimits → (A → Type 0) → List A → Type 0
Counted limits P items =
    (length items < 2 ^ 32) × (length items ≤ limits.max_vector_items) × All P items

unfoldable pub CallValueFits : FactCodecLimits → CallValue → Type 0
CallValueFits limits v =
    (v.ordinal < 2 ^ 32)
    × Sized limits.max_string_bytes v.location
    × Sized limits.max_fact_bytes v.bytes

unfoldable pub PayloadFits : FactCodecLimits → FactPayload → Type 0
unfolding IsI64 IfSome Counted CallValueFits
PayloadFits limits (code_target f) = (f.from < 2 ^ 64) × (f.target < 2 ^ 64)
PayloadFits limits (branch_reachability f) = (f.branch < 2 ^ 64) × (f.successor < 2 ^ 64)
PayloadFits limits (memory_access f) =
    (f.instruction < 2 ^ 64) × (f.address < 2 ^ 64) × (f.size < 2 ^ 32)
PayloadFits limits (memory_value f) =
    (f.instruction < 2 ^ 64) × (f.address < 2 ^ 64) × Sized limits.max_fact_bytes f.bytes
PayloadFits limits (string_candidate f) =
    (f.address < 2 ^ 64)
    × Sized limits.max_fact_bytes f.bytes
    × Sized limits.max_string_bytes f.decoded
PayloadFits limits (function_candidate f) = (f.entry < 2 ^ 64) × IfSome IsU64 f.end
PayloadFits limits (function_trait f) =
    (f.function < 2 ^ 64)
    × IsI64 f.value.signed_value
    × (f.value.unsigned_value < 2 ^ 64)
    × Sized limits.max_string_bytes f.value.text_value
PayloadFits limits (code_region f) = (f.start < 2 ^ 64) × (f.end < 2 ^ 64)
PayloadFits limits (dispatch_map f) =
    (f.site < 2 ^ 64)
    × Counted limits (λ c. IfSome IsU64 c.selector × IsU64 c.target) f.cases
    × IfSome IsU64 f.default_target
PayloadFits limits (cfg_candidate f) = (f.from < 2 ^ 64) × (f.to < 2 ^ 64)
PayloadFits limits (function_outcome f) =
    (f.function < 2 ^ 64)
    × IfSome IsU64 f.stop_pc
    × IfSome IsI64 f.stack_delta
    × IfSome IsU64 f.instruction_count
PayloadFits limits (register_value f) =
    (f.instruction < 2 ^ 64)
    × Sized limits.max_string_bytes f.register_id
    × Sized limits.max_fact_bytes f.bytes
PayloadFits limits (call_observation f) =
    (f.source < 2 ^ 64)
    × IfSome IsU64 f.target
    × Counted limits (CallValueFits limits) f.arguments
    × Counted limits (CallValueFits limits) f.returns

unfoldable pub EvidenceFits : FactCodecLimits → Evidence → Type 0
unfolding IfSome Counted
EvidenceFits limits e =
    Sized limits.max_string_bytes e.producer
    × Sized limits.max_string_bytes e.method
    × (e.confidence < 2 ^ 16)
    × (IfSome IsU64 e.scope.run_id
        × IfSome IsU64 e.scope.seed
        × IfSome IsU64 e.scope.function_start
        × IfSome IsU64 e.scope.function_end
        × IsU64 e.scope.generation)
    × Counted limits IsU64 e.support_addresses
    × Sized limits.max_string_bytes e.detail
