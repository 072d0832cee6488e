-- ===== src/Facts/Validate.antt =====
-- Normal forms and validity (normalize_payload, normalize_evidence and the validators of
-- src/analysis_facts.cpp). The values of an enumeration are its constructors here, so the tests of
-- its range, which only a reader can fail, are in the readers.
use viy.Base.{
  ℕ, ◌+◌, ◌-◌, ◌^◌, Bool, true, false, not, ◌&&◌, ◌||◌, Option, none, some, List, [], ◌∷◌, length,
  ltb, leb, ◌==◌, if◌then◌else◌,
}
use viy.Base.Int.{pos, ◌==ℤ◌}
use viy.Base.Lex.{equal_bytes, less_bytes}
use viy.Facts.Enums.{
  FunctionTraitKind, other_trait, returns_trait, no_return_trait, stack_delta_trait,
  argument_register, return_constant, wrapper_target, leaf, thunk, calling_convention,
  TraitValueKind, trait_value_kind_code, no_value, signed_kind, unsigned_kind, boolean_kind,
  text_kind,
}
use viy.Facts.Kinds.{returned_result, call_result_code}
use viy.Facts.Schema.{
  TraitValue, DispatchCase, CallValue, StringCandidateFact, DispatchMapFact, FactPayload,
  code_target, branch_reachability, memory_access, memory_value, string_candidate,
  function_candidate, function_trait, code_region, dispatch_map, cfg_candidate, function_outcome,
  register_value, call_observation,
}
use viy.Facts.Text.{string_bytes_match_encoding, string_code_unit_size, valid_utf8}
use viy.Facts.Sort.{sort, unique, is_sorted, no_adjacent}

abbrev pub max_u64 : ℕ
max_u64 = 2 ^ 64 - 1

abbrev pub max_u32 : ℕ
max_u32 = 2 ^ 32 - 1

unfoldable pub sized_range_valid : ℕ → ℕ → Bool
sized_range_valid start size = not (size == 0) && leb (size - 1) (max_u64 - start)

abbrev pub equal_options : Option ℕ → Option ℕ → Bool
equal_options none none = true
equal_options none (some b) = false
equal_options (some a) none = false
equal_options (some a) (some b) = a == b

-- Known selectors precede unknown ones.
abbrev pub dispatch_case_less : DispatchCase → DispatchCase → Bool
dispatch_case_less lhs rhs = elim lhs.selector [
  | none ↦ elim rhs.selector [ none ↦ ltb lhs.target rhs.target | some r ↦ false ]
  | some l ↦ elim rhs.selector [
    | none ↦ true
    | some r ↦ ltb l r || l == r && ltb lhs.target rhs.target
  ]
]

abbrev pub dispatch_case_equal : DispatchCase → DispatchCase → Bool
dispatch_case_equal lhs rhs = equal_options lhs.selector rhs.selector && lhs.target == rhs.target

-- std::tie(ordinal, location, bytes)
abbrev pub call_value_less : CallValue → CallValue → Bool
call_value_less lhs rhs =
    ltb lhs.ordinal rhs.ordinal
    || lhs.ordinal == rhs.ordinal
      && (less_bytes lhs.location rhs.location
          || equal_bytes lhs.location rhs.location && less_bytes lhs.bytes rhs.bytes)

abbrev pub same_location : CallValue → CallValue → Bool
same_location lhs rhs = lhs.ordinal == rhs.ordinal && equal_bytes lhs.location rhs.location

abbrev pub call_value_equal : CallValue → CallValue → Bool
call_value_equal lhs rhs = same_location lhs rhs && equal_bytes lhs.bytes rhs.bytes

unfoldable pub normalize_call_values : List CallValue → List CallValue
normalize_call_values values = unique call_value_equal (sort call_value_less values)

abbrev pub call_value_fits : CallValue → Bool
call_value_fits value =
    not (length value.location == 0)
    && not (length value.bytes == 0)
    && leb (length value.location) max_u32
    && leb (length value.bytes) max_u32

abbrev pub all_fit : List CallValue → Bool
all_fit [] = true
all_fit (v ∷ values) = call_value_fits v && all_fit values

unfoldable pub validate_call_values : List CallValue → Bool
validate_call_values values =
    leb (length values) max_u32
    && is_sorted call_value_less values
    && all_fit values
    && no_adjacent same_location values

unfoldable pub has_kind : TraitValueKind → TraitValueKind → Bool
unfolding trait_value_kind_code
has_kind a b = trait_value_kind_code a == trait_value_kind_code b

unfoldable pub normalize_trait_value : TraitValue → TraitValue
unfolding has_kind
normalize_trait_value value = record {
  kind = value.kind;
  signed_value = if has_kind value.kind signed_kind then value.signed_value else pos 0;
  unsigned_value = if has_kind value.kind unsigned_kind then value.unsigned_value else 0;
  boolean_value = if has_kind value.kind boolean_kind then value.boolean_value else false;
  text_value = if has_kind value.kind text_kind then value.text_value else [];
}

unfoldable pub validate_trait_value : TraitValue → Bool
unfolding has_kind
validate_trait_value value =
    (has_kind value.kind text_kind || length value.text_value == 0)
    && (has_kind value.kind signed_kind || value.signed_value ==ℤ pos 0)
    && (has_kind value.kind unsigned_kind || value.unsigned_value == 0)
    && (has_kind value.kind boolean_kind || not value.boolean_value)

unfoldable pub validate_trait_value_for_kind : FunctionTraitKind → TraitValue → Bool
unfolding has_kind
validate_trait_value_for_kind returns_trait value = has_kind value.kind no_value
validate_trait_value_for_kind no_return_trait value = has_kind value.kind no_value
validate_trait_value_for_kind leaf value = has_kind value.kind no_value
validate_trait_value_for_kind thunk value = has_kind value.kind no_value
validate_trait_value_for_kind stack_delta_trait value = has_kind value.kind signed_kind
validate_trait_value_for_kind argument_register value =
    has_kind value.kind unsigned_kind || has_kind value.kind text_kind
validate_trait_value_for_kind return_constant value =
    has_kind value.kind signed_kind || has_kind value.kind unsigned_kind
validate_trait_value_for_kind wrapper_target value = has_kind value.kind unsigned_kind
validate_trait_value_for_kind calling_convention value = has_kind value.kind text_kind
validate_trait_value_for_kind other_trait value = true

-- What normalize_payload does before it validates.
unfoldable pub normal_payload : FactPayload → FactPayload
unfolding normalize_trait_value normalize_call_values
normal_payload (function_trait f) =
    function_trait
      (record { function = f.function; trait = f.trait; value = normalize_trait_value f.value })
normal_payload (dispatch_map f) = dispatch_map (record {
  site = f.site;
  cases = unique dispatch_case_equal (sort dispatch_case_less f.cases);
  default_target = f.default_target;
  complete = f.complete;
})
normal_payload (call_observation f) = call_observation (record {
  source = f.source;
  target = f.target;
  kind = f.kind;
  result = f.result;
  arguments = normalize_call_values f.arguments;
  returns = normalize_call_values f.returns;
})
normal_payload (code_target f) = code_target f
normal_payload (branch_reachability f) = branch_reachability f
normal_payload (memory_access f) = memory_access f
normal_payload (memory_value f) = memory_value f
normal_payload (string_candidate f) = string_candidate f
normal_payload (function_candidate f) = function_candidate f
normal_payload (code_region f) = code_region f
normal_payload (cfg_candidate f) = cfg_candidate f
normal_payload (function_outcome f) = function_outcome f
normal_payload (register_value f) = register_value f

abbrev pub equal_cases : List DispatchCase → List DispatchCase → Bool
equal_cases [] [] = true
equal_cases [] (d ∷ right) = false
equal_cases (c ∷ left) [] = false
equal_cases (c ∷ left) (d ∷ right) = dispatch_case_equal c d && equal_cases left right

-- One selector with two targets.
abbrev pub selector_conflict : DispatchCase → DispatchCase → Bool
selector_conflict previous current = elim previous.selector [
  | none ↦ false
  | some s ↦ equal_options current.selector (some s) && not (current.target == previous.target)
]

abbrev pub is_none {ℓ} : {A : Type ℓ} → Option A → Bool
is_none none = true
is_none (some a) = false

abbrev pub above : ℕ → Option ℕ → Bool
above start none = true
above start (some end) = ltb start end

unfoldable pub validate_cases : DispatchMapFact → Bool
validate_cases fact =
    not (length fact.cases == 0 && is_none fact.default_target)
    && leb (length fact.cases) max_u32
    && equal_cases (sort dispatch_case_less fact.cases) fact.cases
    && no_adjacent dispatch_case_equal fact.cases
    && no_adjacent selector_conflict fact.cases

unfoldable pub validate_string : StringCandidateFact → Bool
unfolding sized_range_valid string_bytes_match_encoding string_code_unit_size valid_utf8
validate_string fact =
    let terminator_size =
      (if fact.null_terminated then string_code_unit_size fact.encoding else 0) in
    not (length fact.bytes == 0 && not fact.null_terminated)
    && leb (length fact.bytes) max_u32
    && leb (length fact.decoded) max_u32
    && string_bytes_match_encoding fact
    && (length fact.decoded == 0 || valid_utf8 fact.decoded)
    && leb (length fact.bytes) (max_u64 - terminator_size)
    && sized_range_valid fact.address (length fact.bytes + terminator_size)

unfoldable pub validate_payload : FactPayload → Bool
unfolding sized_range_valid validate_string validate_cases validate_call_values validate_trait_value
    validate_trait_value_for_kind call_result_code
validate_payload (code_target f) = true
validate_payload (branch_reachability f) = true
validate_payload (memory_access f) = sized_range_valid f.address f.size
validate_payload (memory_value f) =
    sized_range_valid f.address (length f.bytes) && leb (length f.bytes) max_u32
validate_payload (string_candidate f) = validate_string f
validate_payload (function_candidate f) = above f.entry f.end
validate_payload (function_trait f) =
    validate_trait_value f.value && validate_trait_value_for_kind f.trait f.value
validate_payload (code_region f) = ltb f.start f.end
validate_payload (dispatch_map f) = validate_cases f
validate_payload (cfg_candidate f) = true
validate_payload (function_outcome f) = true
validate_payload (register_value f) =
    not (length f.register_id == 0)
    && not (length f.bytes == 0)
    && leb (length f.register_id) max_u32
    && leb (length f.bytes) max_u32
validate_payload (call_observation f) =
    validate_call_values f.arguments
    && validate_call_values f.returns
    && (length f.returns == 0 || call_result_code f.result == call_result_code returned_result)
