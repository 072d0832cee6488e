-- ===== src/Abi/Placement.antt =====
-- Where a plan places a run's arguments (viy_plan_abi_input of src/abi_policy.cpp).
use viy.Base.{
  ℕ, zero, suc, ◌+◌, ◌*◌, ◌%◌, ◌^◌, ◌≤◌, ◌≡◌, ◌≢◌, ◌⊎◌, inl, inr, Bool, true, false, some, List, [],
  ◌∷◌, ◌++◌, arith, get_elem?, take, All, if◌then◌else◌, Option-cases,
}
use mathlib.Core.List.{reverse}
use viy.Base.Int.{ℤ}
use viy.Abi.Defs.{AbiLayout, EmuInput, StackWrite, no_error}
use viy.Abi.Plan.{
  positional, overrides, explicit, stack_byte, stack_bytes, slot, place, stack_values, first_slot,
  plan_stack, plan_input,
}

-- The number that bytes stand for, the lowest first.
abbrev pub from_bytes : List ℕ → ℕ
from_bytes [] = 0
from_bytes (b ∷ bs) = b + 256 * from_bytes bs

-- The bytes of a stack slot of four or eight bytes stand for the value, cut to the slot's width,
-- when they are read in the target's byte order.
pub stack_bytes_lem :
    (big_endian : Bool) (size value : ℕ)
    → (size ≡ 4) ⊎ (size ≡ 8)
    → from_bytes (
        if big_endian
        then reverse (take size (stack_bytes big_endian size value))
        else take size (stack_bytes big_endian size value))
      ≡ value % 2 ^ (8 * size)
unfolding stack_bytes stack_byte
stack_bytes_lem true size value (inl e) = rw e (omega arith)
stack_bytes_lem true size value (inr e) = rw e (omega arith)
stack_bytes_lem false size value (inl e) = rw e (omega arith)
stack_bytes_lem false size value (inr e) = rw e (omega arith)

-- Consecutive slots for a list of values.
module _ (big_endian : Bool) (pointer_size : ℕ) where
  unfoldable pub slots_from : ℕ → List ℕ → List StackWrite
  slots_from destination [] = []
  slots_from destination (v ∷ vs) =
      slot big_endian pointer_size destination v ∷ slots_from (destination + pointer_size) vs

-- A write within a range of addresses.
abbrev pub Inside : ℕ → ℕ → StackWrite → Type 0
Inside base end w = (base ≤ w.address) × (w.address + w.size ≤ end)

module _ (big_endian : Bool) (pointer_size stack_base stack_end : ℕ) where
  place_lem :
      (destination : ℕ) (vs : List ℕ) (ws : List StackWrite)
      → place big_endian pointer_size stack_base stack_end destination vs ≡ some ws
      → (ws ≡ slots_from big_endian pointer_size destination vs)
        × All (Inside stack_base stack_end) ws
  unfolding place slots_from
  place_lem destination [] ws h = let e : ws ≡ [] = ground arith in (e, rw e tt)
  place_lem destination (v ∷ vs) ws h =
      elim (Option-cases
        (place big_endian pointer_size stack_base stack_end (destination + pointer_size) vs)) [
          | inl none_left ↦ absurd (ground arith)
          | inr placed ↦
              let ih = place_lem (destination + pointer_size) vs placed.0 placed.1 in
              let e : ws ≡ slot big_endian pointer_size destination v ∷ placed.0 =
                ground (arith, placed.1) in
              (
                ground (arith, e, ih.0),
                rw e ((ground (arith, placed.1), ground (arith, placed.1)), ih.1),
              )
        ]

-- A plan without error writes the arguments that found no register, and then the explicit stack
-- arguments, to consecutive slots of the pointer's size from the first slot on, and each slot lies
-- inside the stack.
pub plan_input-stack :
    (layout : AbiLayout) (input : EmuInput) (entry_sp stack_base stack_size : ℕ) (big_endian : Bool)
    → (plan_input layout input entry_sp stack_base stack_size big_endian).error ≡ no_error
    → (first : ℕ) × (first_slot layout entry_sp ≡ some first)
      × ((plan_input layout input entry_sp stack_base stack_size big_endian).stack
          ≡ slots_from big_endian layout.pointer_size first (stack_values layout input))
      × All
          (Inside stack_base (stack_base + stack_size))
          (plan_input layout input entry_sp stack_base stack_size big_endian).stack
unfolding plan_input plan_stack
plan_input-stack layout input entry_sp stack_base stack_size big_endian h =
    let end : ℕ = stack_base + stack_size in
    let size : ℕ = layout.pointer_size in
    let values : List ℕ = stack_values layout input in
    elim (Option-cases (first_slot layout entry_sp)) [
      | inl none_left ↦ absurd (ground (arith, none_left))
      | inr first ↦ elim (Option-cases (place big_endian size stack_base end first.0 values)) [
        | inl none_left ↦ absurd (ground (arith, first.1, none_left))
        | inr placed ↦
            let lem = place_lem big_endian size stack_base end first.0 values placed.0 placed.1 in
            let same : (plan_input layout input entry_sp stack_base stack_size big_endian).stack
                ≡ placed.0 =
              ground (arith, first.1, placed.1) in
            (first.0, first.1, rw same lem.0, rw same lem.1)
      ]
    ]

-- A plan with an error writes nothing to the stack.
pub plan_input-error :
    (layout : AbiLayout) (input : EmuInput) (entry_sp stack_base stack_size : ℕ) (big_endian : Bool)
    → (plan_input layout input entry_sp stack_base stack_size big_endian).error ≢ no_error
    → (plan_input layout input entry_sp stack_base stack_size big_endian).stack ≡ []
unfolding plan_input plan_stack
plan_input-error layout input entry_sp stack_base stack_size big_endian h = ground arith

positional-get :
    (regs : List ℤ) (args : List ℕ) (k : ℕ) (r : ℤ) (a : ℕ)
    → get_elem? regs k ≡ some r
    → get_elem? args k ≡ some a
    → get_elem? (positional regs args) k ≡ some (record { reg = r; value = a })
unfolding positional
positional-get [] args k r a h g = cc
positional-get (x ∷ regs) [] k r a h g = cc
positional-get (x ∷ regs) (y ∷ args) zero r a h g = ground arith
positional-get (x ∷ regs) (y ∷ args) (suc k) r a h g = positional-get regs args k r a h g

get_elem?-append :
    {A : Type 0} (xs ys : List A) (k : ℕ) (x : A)
    → get_elem? xs k ≡ some x
    → get_elem? (xs ++ ys) k ≡ some x
get_elem?-append [] ys k x h = cc
get_elem?-append (y ∷ xs) ys zero x h = h
get_elem?-append (y ∷ xs) ys (suc k) x h = get_elem?-append xs ys k x h

-- In a plan without error the k-th argument is the k-th write, to the k-th argument register, as
-- long as there are both.
pub plan_input-register :
    (layout : AbiLayout) (input : EmuInput) (entry_sp stack_base stack_size : ℕ) (big_endian : Bool)
    (k : ℕ) (r : ℤ) (a : ℕ)
    → (plan_input layout input entry_sp stack_base stack_size big_endian).error ≡ no_error
    → get_elem? layout.argument_registers k ≡ some r
    → get_elem? input.args k ≡ some a
    → get_elem? (plan_input layout input entry_sp stack_base stack_size big_endian).registers k
      ≡ some (record { reg = r; value = a })
unfolding plan_input plan_stack
plan_input-register layout input entry_sp stack_base stack_size big_endian k r a h g f =
    let regs = layout.argument_registers in
    let first = positional regs input.args in
    let second = overrides regs input.arg_overrides in
    let third = explicit input.register_overrides in
    let at =
      get_elem?-append (first ++ second) third.0 k (record { reg = r; value = a })
        (get_elem?-append first second k (record { reg = r; value = a })
          (positional-get regs input.args k r a g f)) in
    let same : (plan_input layout input entry_sp stack_base stack_size big_endian).registers
        ≡ first ++ second ++ third.0 =
      ground arith in
    rw same at
