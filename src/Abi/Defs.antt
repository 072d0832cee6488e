-- ===== src/Abi/Defs.antt =====
-- The data of src/abi_policy.hpp and src/emu_input.hpp. The names of layouts and of IDA's registers,
-- which are only shown, are left out.
use viy.Base.{ℕ, ◌-◌, ◌^◌, ◌+◌, Bool, List, Option, none, some, ltb, if◌then◌else◌}
use viy.Base.Int.{ℤ}

-- std::numeric_limits<uint64_t>::max()
abbrev pub u64_max : ℕ
u64_max = 2 ^ 64 - 1

-- checked_add
abbrev pub checked_add : ℕ → ℕ → Option ℕ
checked_add lhs rhs = if ltb (u64_max - rhs) lhs then none else some (lhs + rhs)

pub data ViyAbi : Type 0 where
  unknown x86_32 x86_64_sysv x86_64_win64 aapcs32 aapcs64 riscv64 cortex_m hexagon : ViyAbi

pub record AbiLayout : Type 0 where
  pub abi : ViyAbi
  pub pointer_size : ℕ
  pub return_address_on_stack : Bool
  pub stack_argument_offset : ℕ
  pub argument_registers : List ℤ

-- EmuInput::ArgOverride
pub record ArgOverride : Type 0 where
  pub index : ℕ
  pub value : ℕ

-- EmuInput::RegisterOverride
pub record RegisterOverride : Type 0 where
  pub reg : ℤ
  pub value : ℕ

pub record EmuInput : Type 0 where
  pub seed : ℕ
  pub run_id : ℕ
  pub args : List ℕ
  pub arg_overrides : List ArgOverride
  pub register_overrides : List RegisterOverride
  pub stack_args : List ℕ
  pub stack_arg_offset : ℕ

-- ViyAbiRegisterWrite
pub record RegisterWrite : Type 0 where
  pub reg : ℤ
  pub value : ℕ

-- ViyAbiStackWrite
pub record StackWrite : Type 0 where
  pub address : ℕ
  pub bytes : List ℕ
  pub size : ℕ

-- ViyAbiPlanError
pub data PlanError : Type 0 where
  no_error unsupported_abi invalid_register stack_offset_mismatch address_overflow
        stack_out_of_range :
      PlanError

-- ViyAbiInputPlan
pub record InputPlan : Type 0 where
  pub error : PlanError
  pub registers : List RegisterWrite
  pub stack : List StackWrite
