-- ===== src/Abi/Layout.antt =====
-- The table of calling conventions (viy_abi_for_arch and viy_abi_layout of src/abi_policy.cpp). The
-- register numbers of the rax library, which is not part of the repository, are the parameter `Ids`.
use viy.Base.{ℕ, Bool, true, false, List, [], ◌∷◌, if◌then◌else◌}
use viy.Base.Int.{ℤ}
use viy.Program.Defs.{ViyArch}
use viy.Abi.Defs.{
  ViyAbi, unknown, x86_32, x86_64_sysv, x86_64_win64, aapcs32, aapcs64, riscv64, cortex_m, hexagon,
  AbiLayout,
}

pub record Ids : Type 0 where
  pub rdi : ℤ
  pub rsi : ℤ
  pub rdx : ℤ
  pub rcx : ℤ
  pub r8 : ℤ
  pub r9 : ℤ
  pub arm_r : ℕ → ℤ
  pub arm64_x : ℕ → ℤ
  pub riscv_x : ℕ → ℤ
  pub cm_r : ℕ → ℤ
  pub hex_r : ℕ → ℤ

unfoldable pub abi_for_arch : ViyArch → Bool → ViyAbi
abi_for_arch ViyArch.x86_32 windows_x64 = x86_32
abi_for_arch ViyArch.x86_64 windows_x64 = if windows_x64 then x86_64_win64 else x86_64_sysv
abi_for_arch ViyArch.arm32 windows_x64 = aapcs32
abi_for_arch ViyArch.arm64 windows_x64 = aapcs64
abi_for_arch ViyArch.riscv64 windows_x64 = riscv64
abi_for_arch ViyArch.cortex_m windows_x64 = cortex_m
abi_for_arch ViyArch.hexagon windows_x64 = hexagon
abi_for_arch ViyArch.unsupported windows_x64 = unknown
abi_for_arch ViyArch.x86_16 windows_x64 = unknown

module _ (ids : Ids) where
  open ids use {rdi, rsi, rdx, rcx, r8, r9, arm_r, arm64_x, riscv_x, cm_r, hex_r}

  layout_of : ViyAbi → ℕ → Bool → ℕ → List ℤ → AbiLayout
  layout_of abi pointer_size on_stack offset registers = record {
    abi = abi;
    pointer_size = pointer_size;
    return_address_on_stack = on_stack;
    stack_argument_offset = offset;
    argument_registers = registers;
  }

  unfoldable pub abi_layout : ViyAbi → AbiLayout
  unfolding layout_of
  abi_layout unknown = layout_of unknown 0 false 0 []
  abi_layout x86_32 = layout_of x86_32 4 true 0 []
  abi_layout x86_64_sysv = layout_of x86_64_sysv 8 true 0 (rdi ∷ rsi ∷ rdx ∷ rcx ∷ r8 ∷ r9 ∷ [])
  abi_layout x86_64_win64 = layout_of x86_64_win64 8 true 32 (rcx ∷ rdx ∷ r8 ∷ r9 ∷ [])
  abi_layout aapcs32 = layout_of aapcs32 4 false 0 (arm_r 0 ∷ arm_r 1 ∷ arm_r 2 ∷ arm_r 3 ∷ [])
  abi_layout aapcs64 = layout_of aapcs64 8 false 0 (
      arm64_x 0
      ∷ arm64_x 1
      ∷ arm64_x 2
      ∷ arm64_x 3
      ∷ arm64_x 4
      ∷ arm64_x 5
      ∷ arm64_x 6
      ∷ arm64_x 7
      ∷ [])
  abi_layout riscv64 = layout_of riscv64 8 false 0 (
      riscv_x 10
      ∷ riscv_x 11
      ∷ riscv_x 12
      ∷ riscv_x 13
      ∷ riscv_x 14
      ∷ riscv_x 15
      ∷ riscv_x 16
      ∷ riscv_x 17
      ∷ [])
  abi_layout cortex_m = layout_of cortex_m 4 false 0 (cm_r 0 ∷ cm_r 1 ∷ cm_r 2 ∷ cm_r 3 ∷ [])
  abi_layout hexagon =
      layout_of hexagon 4 false 0 (hex_r 0 ∷ hex_r 1 ∷ hex_r 2 ∷ hex_r 3 ∷ hex_r 4 ∷ hex_r 5 ∷ [])
