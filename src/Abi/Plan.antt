-- ===== src/Abi/Plan.antt =====
-- The placement plan of a run's input (viy_plan_abi_input of src/abi_policy.cpp).
use viy.Base.{
  ℕ, ◌+◌, ◌-◌, ◌*◌, ◌/◌, ◌%◌, ◌^◌, Bool, true, false, not, ◌&&◌, ◌||◌, Option, none, some, List, [],
  ◌∷◌, ◌++◌, map, length, get_elem?, drop, ltb, ◌==◌, if◌then◌else◌,
}
use viy.Base.Int.{ℤ, pos, negsuc}
use viy.Abi.Defs.{
  u64_max, checked_add, ViyAbi, unknown, AbiLayout, ArgOverride, RegisterOverride, EmuInput,
  RegisterWrite, StackWrite, PlanError, no_error, unsupported_abi, invalid_register,
  stack_offset_mismatch, address_overflow, stack_out_of_range, InputPlan,
}

abbrev is_unknown : ViyAbi → Bool
is_unknown unknown = true
is_unknown _ = false

-- ViyAbiLayout::supported, and the check of the pointer's width
unfoldable pub usable : AbiLayout → Bool
usable layout =
    not (is_unknown layout.abi) && (layout.pointer_size == 4 || layout.pointer_size == 8)

-- Positional arguments go to the argument registers, as many as there are.
unfoldable pub positional : List ℤ → List ℕ → List RegisterWrite
positional [] args = []
positional (r ∷ regs) [] = []
positional (r ∷ regs) (a ∷ args) = record { reg = r; value = a } ∷ positional regs args

-- Overrides by position; one past the registers is skipped.
unfoldable pub overrides : List ℤ → List ArgOverride → List RegisterWrite
overrides regs [] = []
overrides regs (o ∷ os) = elim (get_elem? regs o.index) [
  | none ↦ overrides regs os
  | some r ↦ record { reg = r; value = o.value } ∷ overrides regs os
]

-- Overrides by register: those before the first negative number, and whether there is none.
unfoldable pub explicit : List RegisterOverride → List RegisterWrite × Bool
explicit [] = ([], true)
explicit (o ∷ os) =
    let rest = explicit os in
    elim o.reg [
      | pos n ↦ (record { reg = pos n; value = o.value } ∷ rest.0, rest.1)
      | negsuc n ↦ ([], false)
    ]

-- The byte at a place of the value's eight, in the target's order; the rest of the array is zero.
unfoldable pub stack_byte : Bool → ℕ → ℕ → ℕ → ℕ
stack_byte big_endian size value place =
    if ltb place size
    then value / 2 ^ (8 * (if big_endian then size - 1 - place else place)) % 256
    else 0

unfoldable pub stack_bytes : Bool → ℕ → ℕ → List ℕ
unfolding stack_byte
stack_bytes big_endian size value =
    map (stack_byte big_endian size value) (0 ∷ 1 ∷ 2 ∷ 3 ∷ 4 ∷ 5 ∷ 6 ∷ 7 ∷ [])

abbrev pub slot : Bool → ℕ → ℕ → ℕ → StackWrite
slot big_endian pointer_size destination value = record {
  address = destination;
  bytes = stack_bytes big_endian pointer_size value;
  size = pointer_size;
}

-- The loop over the stack's values; none where a slot leaves the stack.
module _ (big_endian : Bool) (pointer_size stack_base stack_end : ℕ) where
  unfoldable pub place : ℕ → List ℕ → Option (List StackWrite)
  place destination [] = some []
  place destination (v ∷ vs) =
      let next : ℕ = destination + pointer_size in
      let rest = place next vs in
      if ltb destination stack_base
        || ltb (u64_max - pointer_size) destination
        || ltb stack_end next
      then none
      else elim rest [
        | none ↦ none
        | some ws ↦ some (slot big_endian pointer_size destination v ∷ ws)
      ]

abbrev pub stack_values : AbiLayout → EmuInput → List ℕ
stack_values layout input = drop (length layout.argument_registers) input.args ++ input.stack_args

-- Where the first stack argument goes, unless the sum overflows.
unfoldable pub first_slot : AbiLayout → ℕ → Option ℕ
first_slot layout entry_sp =
    elim (checked_add entry_sp
      (if layout.return_address_on_stack then layout.pointer_size else 0)) [
        | none ↦ none
        | some d ↦ checked_add d layout.stack_argument_offset
      ]

abbrev failed : PlanError → List RegisterWrite → InputPlan
failed error registers = record { error = error; registers = registers; stack = [] }

-- The part behind the register writes.
unfoldable pub plan_stack : AbiLayout → List ℕ → List RegisterWrite → ℕ → ℕ → ℕ → Bool → InputPlan
unfolding place first_slot
plan_stack layout values registers entry_sp stack_base stack_size big_endian =
    elim (checked_add stack_base stack_size) [
      | none ↦ failed address_overflow registers
      | some stack_end ↦ elim (first_slot layout entry_sp) [
        | none ↦ failed address_overflow registers
        | some destination ↦
            elim (place big_endian layout.pointer_size stack_base stack_end destination values) [
              | none ↦ failed stack_out_of_range []
              | some stack ↦ record { error = no_error; registers = registers; stack = stack }
            ]
      ]
    ]

unfoldable pub plan_input : AbiLayout → EmuInput → ℕ → ℕ → ℕ → Bool → InputPlan
unfolding usable positional overrides explicit plan_stack
plan_input layout input entry_sp stack_base stack_size big_endian =
    let regs = layout.argument_registers in
    let extra = explicit input.register_overrides in
    let registers = positional regs input.args ++ overrides regs input.arg_overrides ++ extra.0 in
    if not (usable layout)
    then failed unsupported_abi []
    else if not (input.stack_arg_offset == 0)
        && not (input.stack_arg_offset == layout.stack_argument_offset)
    then failed stack_offset_mismatch []
    else if not extra.1
    then failed invalid_register registers
    else plan_stack layout (stack_values layout input) registers entry_sp stack_base stack_size
        big_endian
