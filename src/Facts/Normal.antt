-- ===== src/Facts/Normal.antt =====
-- A valid payload or piece of evidence is its own normal form (src/analysis_facts.cpp).
use viy.Base.{
  ℕ, ◌≡◌, refl, ap, ◌∙◌, Bool, true, false, not, ◌&&◌, ◌||◌, Option, none, some, List, [], ◌∷◌,
  arith, length, ltb, ◌==◌, ==_iff, if◌then◌else◌,
}
use viy.Base.Int.{ℤ, pos, negsuc, ◌==ℤ◌}
use viy.Facts.Enums.{signed_kind, unsigned_kind, boolean_kind, text_kind}
use viy.Facts.Schema.{
  Evidence, TraitValue, DispatchCase, CallValue, DispatchMapFact, FactPayload, code_target,
  branch_reachability, memory_access, memory_value, string_candidate, function_candidate,
  function_trait, code_region, dispatch_map, cfg_candidate, function_outcome, register_value,
  call_observation,
}
use viy.Facts.Sort.{sort, unique, no_adjacent, sort-sorted, unique-no_adjacent}
use viy.Facts.Validate.{
  equal_options, dispatch_case_less, dispatch_case_equal, call_value_less, same_location,
  call_value_equal, normalize_call_values, validate_call_values, has_kind, normalize_trait_value,
  validate_trait_value, normal_payload, equal_cases, validate_cases, validate_payload,
}
use viy.Facts.Codec.{normal_evidence, validate_evidence}

pub and_first : (a b : Bool) → (a && b) ≡ true → a ≡ true
and_first a b h = ground arith

pub and_second : (a b : Bool) → (a && b) ≡ true → b ≡ true
and_second a b h = ground arith

equal_options→≡ : (a b : Option ℕ) → equal_options a b ≡ true → a ≡ b
equal_options→≡ none none h = refl
equal_options→≡ none (some b) h = cc
equal_options→≡ (some a) none h = cc
equal_options→≡ (some a) (some b) h = ap some ((==_iff a b).0 h)

dispatch_case_equal→≡ : (c d : DispatchCase) → dispatch_case_equal c d ≡ true → c ≡ d
dispatch_case_equal→≡ c d h =
    let e = equal_options→≡ c.selector d.selector (and_first _ _ h) in
    let f : c.target ≡ d.target =
      (==_iff c.target d.target).0 (and_second (equal_options c.selector d.selector) _ h) in
    λ i. record { selector = e i; target = f i }

equal_cases→≡ : (left right : List DispatchCase) → equal_cases left right ≡ true → left ≡ right
equal_cases→≡ [] [] h = refl
equal_cases→≡ [] (d ∷ right) h = cc
equal_cases→≡ (c ∷ left) [] h = cc
equal_cases→≡ (c ∷ left) (d ∷ right) h =
    let e = dispatch_case_equal→≡ c d (and_first _ _ h) in
    let f = equal_cases→≡ left right (and_second (dispatch_case_equal c d) _ h) in λ i. e i ∷ f i

pub normal_cases :
    (fact : DispatchMapFact)
    → validate_cases fact ≡ true
    → unique dispatch_case_equal (sort dispatch_case_less fact.cases) ≡ fact.cases
unfolding validate_cases
normal_cases fact h =
    let s = equal_cases→≡ (sort dispatch_case_less fact.cases) fact.cases (ground arith) in
    ap (unique dispatch_case_equal) s
    ∙ unique-no_adjacent dispatch_case_equal fact.cases (ground arith)

locations_differ :
    (values : List CallValue)
    → no_adjacent same_location values ≡ true
    → no_adjacent call_value_equal values ≡ true
locations_differ [] h = refl
locations_differ (v ∷ []) h = refl
locations_differ (v ∷ w ∷ values) h = ground (arith, locations_differ (w ∷ values))

normalize_call_values_valid :
    (values : List CallValue)
    → validate_call_values values ≡ true
    → normalize_call_values values ≡ values
unfolding validate_call_values normalize_call_values
normalize_call_values_valid values h =
    ap (unique call_value_equal) (sort-sorted call_value_less values (ground arith))
    ∙ unique-no_adjacent call_value_equal values (locations_differ values (ground arith))

zero_kept : (b : Bool) (z : ℤ) → (b || z ==ℤ pos 0) ≡ true → (if b then z else pos 0) ≡ z
zero_kept true z h = refl
zero_kept false (pos n) h = ap pos (ground arith)
zero_kept false (negsuc n) h = ground arith

nothing_kept :
    (b : Bool) (text : List ℕ) → (b || length text == 0) ≡ true → (if b then text else []) ≡ text
nothing_kept true text h = refl
nothing_kept false [] h = refl
nothing_kept false (x ∷ text) h = ground arith

number_kept : (b : Bool) (n : ℕ) → (b || n == 0) ≡ true → (if b then n else 0) ≡ n
number_kept b n h = ground arith

false_kept : (b c : Bool) → (b || not c) ≡ true → (if b then c else false) ≡ c
false_kept b c h = ground arith

normalize_trait_value_valid :
    (v : TraitValue) → validate_trait_value v ≡ true → normalize_trait_value v ≡ v
unfolding validate_trait_value normalize_trait_value
normalize_trait_value_valid v h =
    let s = zero_kept (has_kind v.kind signed_kind) v.signed_value (ground arith) in
    let u = number_kept (has_kind v.kind unsigned_kind) v.unsigned_value (ground arith) in
    let b = false_kept (has_kind v.kind boolean_kind) v.boolean_value (ground arith) in
    let t = nothing_kept (has_kind v.kind text_kind) v.text_value (ground arith) in
    λ i. record {
      kind = v.kind;
      signed_value = s i;
      unsigned_value = u i;
      boolean_value = b i;
      text_value = t i;
    }

pub normal_payload_valid :
    (payload : FactPayload) → validate_payload payload ≡ true → normal_payload payload ≡ payload
unfolding normal_payload validate_payload
normal_payload_valid (code_target f) h = refl
normal_payload_valid (branch_reachability f) h = refl
normal_payload_valid (memory_access f) h = refl
normal_payload_valid (memory_value f) h = refl
normal_payload_valid (string_candidate f) h = refl
normal_payload_valid (function_candidate f) h = refl
normal_payload_valid (function_trait f) h =
    let e = normalize_trait_value_valid f.value (and_first _ _ h) in
    λ i. function_trait (record { function = f.function; trait = f.trait; value = e i })
normal_payload_valid (code_region f) h = refl
normal_payload_valid (dispatch_map f) h =
    let e = normal_cases f h in
    λ i. dispatch_map (record {
      site = f.site;
      cases = e i;
      default_target = f.default_target;
      complete = f.complete;
    })
normal_payload_valid (cfg_candidate f) h = refl
normal_payload_valid (function_outcome f) h = refl
normal_payload_valid (register_value f) h = refl
normal_payload_valid (call_observation f) h =
    let a = normalize_call_values_valid f.arguments (ground arith) in
    let r = normalize_call_values_valid f.returns (ground arith) in
    λ i. call_observation (record {
      source = f.source;
      target = f.target;
      kind = f.kind;
      result = f.result;
      arguments = a i;
      returns = r i;
    })

pub normal_evidence_valid : (e : Evidence) → validate_evidence e ≡ true → normal_evidence e ≡ e
unfolding normal_evidence validate_evidence
normal_evidence_valid e h =
    let s =
      ap (unique ◌==◌) (sort-sorted ltb e.support_addresses (ground arith))
      ∙ unique-no_adjacent ◌==◌ e.support_addresses (ground arith) in
    λ i. record e { support_addresses = s i }
