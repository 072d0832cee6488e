-- ===== src/Conflicts/Calls.antt =====
-- Two observations of calls: compare_payloads and overlapping_call_values_differ of
-- src/evidence_store.cpp.
use viy.Base.{
  ℕ, Bool, true, false, not, ◌&&◌, ◌||◌, Option, none, some, List, [], ◌∷◌, ◌==◌, ltb,
  if◌then◌else◌,
}
use viy.Base.Lex.{equal_bytes, less_bytes}
use viy.Facts.Kinds.{
  CallKind, unknown_call, call_kind_code, CallResult, unknown_result, call_result_code,
}
use viy.Facts.Schema.{CallValue, CallObservationFact}
use viy.Conflicts.Dispatch.{
  variation, ambiguity, divergent_call_observation, Conflict, when, different,
}
use viy.Conflicts.Dispatch.{conflict}

-- std::tie(ordinal, location) < key
abbrev pub value_before : CallValue → ℕ → List ℕ → Bool
value_before value ordinal location =
    ltb value.ordinal ordinal || value.ordinal == ordinal && less_bytes value.location location

-- Over values in order: the first that is not before the key, if it has the key.
unfoldable pub find_call_value : List CallValue → ℕ → List ℕ → Option CallValue
find_call_value [] ordinal location = none
find_call_value (value ∷ values) ordinal location =
    let rest = find_call_value values ordinal location in
    if value_before value ordinal location
    then rest
    else (if value.ordinal == ordinal && equal_bytes value.location location
        then some value
        else none)

abbrev pub differs : CallValue → Option CallValue → Bool
differs value none = false
differs value (some other) = not (equal_bytes other.bytes value.bytes)

unfoldable pub overlapping_call_values_differ : List CallValue → List CallValue → Bool
unfolding find_call_value
overlapping_call_values_differ [] right = false
overlapping_call_values_differ (value ∷ left) right =
    differs value (find_call_value right value.ordinal value.location)
    || overlapping_call_values_differ left right

abbrev pub call_kind_known : CallKind → Bool
call_kind_known kind = elim kind [ unknown_call ↦ false | _ ↦ true ]

abbrev pub call_result_known : CallResult → Bool
call_result_known result = elim result [ unknown_result ↦ false | _ ↦ true ]

abbrev pub kind_differs : CallKind → CallKind → Bool
kind_differs left right =
    call_kind_known left
    && call_kind_known right
    && not (call_kind_code left == call_kind_code right)

abbrev pub result_differs : CallResult → CallResult → Bool
result_differs left right =
    call_result_known left
    && call_result_known right
    && not (call_result_code left == call_result_code right)

unfoldable pub compare_calls : CallObservationFact → CallObservationFact → List Conflict
unfolding overlapping_call_values_differ
compare_calls left right =
    when
      (left.source == right.source
        && (different left.target right.target
            || kind_differs left.kind right.kind
            || result_differs left.result right.result
            || overlapping_call_values_differ left.arguments right.arguments
            || overlapping_call_values_differ left.returns right.returns))
      (conflict divergent_call_observation
        (if kind_differs left.kind right.kind then ambiguity else variation) left.source none)
