-- ===== src/Abi/Tests.antt =====
-- The ABI policy at a Windows x64 call and at small stacks.
use mathlib.Core.List.{reverse}
use viy.Base.{
  ℕ, ◌+◌, ◌*◌, ◌%◌, ◌^◌, ◌≤◌, ◌<◌, ◌≡◌, inl, refl, true, false, some, List, [], ◌∷◌, get_elem?,
  take, All,
}
use viy.Base.Int.{pos}
use viy.Abi.Defs.{x86_64_win64, AbiLayout, EmuInput}
use viy.Abi.Layout.{Ids, abi_layout}
use viy.Abi.Plan.{first_slot, stack_bytes, plan_input}
use viy.Abi.Placement.{
  from_bytes, slots_from, Inside, stack_bytes_lem, plan_input-stack, plan_input-register,
}
use viy.Abi.Seed.{SeedValue, stack_pointer, seed_argument_corpus, seed_argument_corpus-pointer}

abbrev numbered : Ids
numbered = record {
  rdi = pos 1;
  rsi = pos 2;
  rdx = pos 3;
  rcx = pos 4;
  r8 = pos 5;
  r9 = pos 6;
  arm_r = λ n. pos n;
  arm64_x = λ n. pos n;
  riscv_x = λ n. pos n;
  cm_r = λ n. pos n;
  hex_r = λ n. pos n;
}

abbrev windows : AbiLayout
windows = abi_layout numbered x86_64_win64

abbrev five_args : EmuInput
five_args = record {
  seed = 0;
  run_id = 0;
  args = 10 ∷ 20 ∷ 30 ∷ 40 ∷ 50 ∷ [];
  arg_overrides = [];
  register_overrides = [];
  stack_args = [];
  stack_arg_offset = 32;
}

plan_input-stack_example :
    (first : ℕ) × (first_slot windows 0x1000 ≡ some first)
    × ((plan_input windows five_args 0x1000 0x800 0x1000 false).stack
        ≡ slots_from false 8 first (50 ∷ []))
    × All
        (Inside 0x800 (0x800 + 0x1000))
        (plan_input windows five_args 0x1000 0x800 0x1000 false).stack
unfolding abi_layout
plan_input-stack_example =
    plan_input-stack windows five_args 0x1000 0x800 0x1000 false
      (unfold plan_input abi_layout in refl)

-- The fifth argument's slot would end behind the stack.

plan_input-register_example :
    get_elem? (plan_input windows five_args 0x1000 0x800 0x1000 false).registers 2
    ≡ some (record { reg = pos 5; value = 30 })
plan_input-register_example =
    plan_input-register windows five_args 0x1000 0x800 0x1000 false 2 (pos 5) 30
      (unfold plan_input abi_layout in refl) (unfold abi_layout in refl) refl

stack_bytes_lem_example :
    from_bytes (reverse (take 4 (stack_bytes true 4 0x1_0203_0405))) ≡ 0x1_0203_0405 % 2 ^ (8 * 4)
stack_bytes_lem_example = stack_bytes_lem true 4 0x1_0203_0405 (inl refl)

abbrev eight_values : List SeedValue
eight_values = seed_argument_corpus 0 8 0x40_0000 0x7000 0x1000

seed_argument_corpus-pointer_example : (0x7000 ≤ 0x7e00) × (0x7e00 < 0x7000 + 0x1000)
seed_argument_corpus-pointer_example =
    seed_argument_corpus-pointer 0 8 0x40_0000 0x7000 0x1000 6
      (record { value = 0x7e00; kind = stack_pointer }) (unfold seed_argument_corpus in refl) refl
