-- ===== src/Conflicts/Dispatch.antt =====
-- Two dispatch maps of one site (compare_dispatch_maps and dispatch_maps_contradict of
-- src/evidence_store.cpp). A set of targets is a list in the order of insertion.
use viy.Base.{
  ℕ, ◌≡◌, refl, ap, ◌∙◌, Bool, true, false, not, ◌&&◌, ◌||◌, Option, none, some, List, [], ◌∷◌,
  ◌++◌, ◌==◌, if◌then◌else◌,
}
use viy.Base.Sets.{member, insert}
use viy.Base.Any.{any, any-append, any_append_four}
use viy.Facts.Schema.{DispatchCase, DispatchMapFact}
use viy.Facts.Validate.{equal_options}

pub data ConflictSeverity : Type 0 where
  variation ambiguity contradiction : ConflictSeverity

pub data ConflictType : Type 0 where
  reachable_and_unreachable divergent_memory_value divergent_string_candidate
        divergent_function_candidate divergent_function_trait return_behavior_contradiction
        incompatible_code_region divergent_dispatch_case divergent_cfg_reachability
        divergent_function_outcome conflicting_unique_code_target divergent_register_value
        divergent_call_observation :
      ConflictType

-- What add_conflict is told, without the payloads and the explanation.
pub record Conflict : Type 0 where
  pub type : ConflictType
  pub severity : ConflictSeverity
  pub subject : ℕ
  pub secondary_subject : Option ℕ

abbrev pub conflict : ConflictType → ConflictSeverity → ℕ → Option ℕ → Conflict
conflict type severity subject secondary = record {
  type = type;
  severity = severity;
  subject = subject;
  secondary_subject = secondary;
}

abbrev pub is_contradiction : Conflict → Bool
is_contradiction c = elim c.severity [ contradiction ↦ true | _ ↦ false ]

-- A conflict under a condition.
abbrev pub when : Bool → Conflict → List Conflict
when b c = if b then c ∷ [] else []

unfoldable pub insert_targets : List DispatchCase → List ℕ → List ℕ
unfolding insert
insert_targets [] targets = targets
insert_targets (c ∷ cases) targets = insert_targets cases (insert c.target targets)

abbrev pub insert_default : Option ℕ → List ℕ → List ℕ
insert_default none targets = targets
insert_default (some target) targets = insert target targets

unfoldable pub dispatch_targets : DispatchMapFact → List ℕ
unfolding insert_targets
dispatch_targets fact = insert_default fact.default_target (insert_targets fact.cases [])

-- The first case with the selector.
unfoldable pub matching_case : ℕ → List DispatchCase → Option DispatchCase
matching_case selector [] = none
matching_case selector (c ∷ cases) =
    let rest = matching_case selector cases in
    if equal_options c.selector (some selector) then some c else rest

-- The target that the other map gives for the case's selector, when it is another one.
abbrev pub competes : DispatchCase → List DispatchCase → Bool
competes c others = elim c.selector [
  | none ↦ false
  | some selector ↦ elim (matching_case selector others) [
    | none ↦ false
    | some d ↦ not (d.target == c.target)
  ]
]

abbrev pub different : Option ℕ → Option ℕ → Bool
different none b = false
different (some a) none = false
different (some a) (some b) = not (a == b)

abbrev pub severity_of : Bool → ConflictSeverity
severity_of complete = if complete then contradiction else ambiguity

abbrev dispatch_conflict : DispatchMapFact → Bool → Option ℕ → Conflict
dispatch_conflict left complete secondary = record {
  type = divergent_dispatch_case;
  severity = severity_of complete;
  subject = left.site;
  secondary_subject = secondary;
}

unfoldable pub case_conflicts :
    DispatchMapFact → DispatchMapFact → List DispatchCase → List Conflict
unfolding matching_case
case_conflicts left right [] = []
case_conflicts left right (c ∷ cases) =
    when (competes c right.cases)
      (dispatch_conflict left (left.complete || right.complete) c.selector)
    ++ case_conflicts left right cases

-- The targets that are not among those of a map.
unfoldable pub missing_conflicts : DispatchMapFact → List ℕ → List ℕ → List Conflict
unfolding member
missing_conflicts left known [] = []
missing_conflicts left known (t ∷ targets) =
    when (not (member t known)) (dispatch_conflict left true (some t))
    ++ missing_conflicts left known targets

unfoldable pub compare_dispatch_maps : DispatchMapFact → DispatchMapFact → List Conflict
unfolding case_conflicts missing_conflicts dispatch_targets
compare_dispatch_maps left right =
    if left.site == right.site
    then case_conflicts left right left.cases
      ++ when (different left.default_target right.default_target)
          (dispatch_conflict left (left.complete || right.complete) none)
      ++ (if left.complete
          then missing_conflicts left (dispatch_targets left) (dispatch_targets right)
          else [])
      ++ (if right.complete
          then missing_conflicts left (dispatch_targets right) (dispatch_targets left)
          else [])
    else []

-- The test without the list of conflicts.
unfoldable pub dispatch_maps_contradict : DispatchMapFact → DispatchMapFact → Bool
unfolding any matching_case member dispatch_targets
dispatch_maps_contradict left right =
    left.site == right.site
    && (any (λ c. competes c right.cases && (left.complete || right.complete)) left.cases
        || different left.default_target right.default_target && (left.complete || right.complete)
        || left.complete
          && any (λ t. not (member t (dispatch_targets left))) (dispatch_targets right)
        || right.complete
          && any (λ t. not (member t (dispatch_targets right))) (dispatch_targets left))

case_contradictions :
    (left right : DispatchMapFact) (cases : List DispatchCase)
    → any is_contradiction (case_conflicts left right cases)
      ≡ any (λ c. competes c right.cases && (left.complete || right.complete)) cases
unfolding any case_conflicts
case_contradictions left right [] = refl
case_contradictions left right (c ∷ cases) =
    any-append is_contradiction
      (when (competes c right.cases)
        (dispatch_conflict left (left.complete || right.complete) c.selector))
      (case_conflicts left right cases)
    ∙ (λ i.
        one (competes c right.cases) (left.complete || right.complete) i
        || case_contradictions left right cases i)
  where
    one :
        (b k : Bool)
        → any is_contradiction (when b (dispatch_conflict left k c.selector)) ≡ (b && k)
    one true true = refl
    one true false = refl
    one false k = refl

missing_contradictions :
    (left : DispatchMapFact) (known targets : List ℕ)
    → any is_contradiction (missing_conflicts left known targets)
      ≡ any (λ t. not (member t known)) targets
unfolding any missing_conflicts
missing_contradictions left known [] = refl
missing_contradictions left known (t ∷ targets) =
    any-append is_contradiction (when (not (member t known)) (dispatch_conflict left true (some t)))
      (missing_conflicts left known targets)
    ∙ (λ i. one (not (member t known)) i || missing_contradictions left known targets i)
  where
    one : (b : Bool) → any is_contradiction (when b (dispatch_conflict left true (some t))) ≡ b
    one true = refl
    one false = refl

under_if :
    (b : Bool) (conflicts : List Conflict)
    → any is_contradiction (if b then conflicts else []) ≡ (b && any is_contradiction conflicts)
unfolding any
under_if true conflicts = refl
under_if false conflicts = refl

-- For every two dispatch maps dispatch_maps_contradict finds out whether compare_dispatch_maps
-- reports a contradiction.
pub compare_dispatch_maps-contradictions :
    (left right : DispatchMapFact)
    → any is_contradiction (compare_dispatch_maps left right) ≡ dispatch_maps_contradict left right
unfolding any compare_dispatch_maps dispatch_maps_contradict
compare_dispatch_maps-contradictions left right =
    under_if (left.site == right.site) _
    ∙ ap (λ b. left.site == right.site && b)
        (any_append_four is_contradiction (case_conflicts left right left.cases)
            (when unequal (dispatch_conflict left complete none))
            (if left.complete then missing_conflicts left ls rs else [])
            (if right.complete then missing_conflicts left rs ls else [])
          ∙ (λ i.
              case_contradictions left right left.cases i
              || default_one unequal complete i
              || complete_one left.complete ls rs i
              || complete_one right.complete rs ls i))
  where
    complete : Bool
    complete = left.complete || right.complete

    unequal : Bool
    unequal = different left.default_target right.default_target

    ls : List ℕ
    ls = dispatch_targets left

    rs : List ℕ
    rs = dispatch_targets right

    default_one :
        (b k : Bool) → any is_contradiction (when b (dispatch_conflict left k none)) ≡ (b && k)
    default_one true true = refl
    default_one true false = refl
    default_one false k = refl

    complete_one :
        (b : Bool) (known targets : List ℕ)
        → any is_contradiction (if b then missing_conflicts left known targets else [])
          ≡ (b && any (λ t. not (member t known)) targets)
    complete_one b known targets =
        under_if b (missing_conflicts left known targets)
        ∙ ap (λ c. b && c) (missing_contradictions left known targets)
