-- ===== src/Machine.antt =====
-- x86.h: the registers that the kernel reads and writes, each access as the instruction of its inline
-- assembly. What `cpuid` answers is a parameter of the machine. The faults that the processor raises
-- at illegal values are not modelled.
pub mod Registers
pub mod Flags
pub mod Ports
use rix_draft.Base.{ℕ, ◌+◌, ◌*◌, ◌/◌, ◌%◌, ◌^◌, u32, bit_or, ◌<<<◌, ◌>>>◌, ◌==◌, if◌then◌else◌}

-- The answer of `cpuid`.
pub record Answer : Type 0 where
  pub eax : ℕ
  pub ebx : ℕ
  pub ecx : ℕ
  pub edx : ℕ

pub record Machine : Type 0 where
  pub cr0 : ℕ
  pub cr2 : ℕ
  pub cr3 : ℕ
  pub cr4 : ℕ
  pub msr : ℕ → ℕ
  pub fs : ℕ → ℕ
  pub gs : ℕ → ℕ
  pub answer : (leaf csel : ℕ) → Answer

unfoldable pub x86_cpuid : (leaf : ℕ) → Machine → Answer
x86_cpuid leaf m = m.answer leaf 0

unfoldable pub x86_cpuid_c : (leaf csel : ℕ) → Machine → Answer
x86_cpuid_c leaf csel m = m.answer leaf csel

-- `rdmsr` gives the halves of the register in `edx` and `eax`.
unfoldable pub x86_read_msr : (msr_id : ℕ) → Machine → ℕ
x86_read_msr msr_id m =
    let lo = u32 (m.msr msr_id) in let hi = u32 (m.msr msr_id >>> 32) in bit_or (hi <<< 32) lo

unfoldable pub x86_write_msr : (msr_id value : ℕ) → Machine → Machine
x86_write_msr msr_id value m =
    let lo = u32 value in
    let hi = u32 (value >>> 32) in
    record m { msr = λ id. if id == msr_id then hi * 2 ^ 32 + lo else m.msr id }

unfoldable pub x86_get_cr0 : Machine → ℕ
x86_get_cr0 m = m.cr0

unfoldable pub x86_set_cr0 : ℕ → Machine → Machine
x86_set_cr0 val m = record m { cr0 = val }

unfoldable pub x86_get_cr2 : Machine → ℕ
x86_get_cr2 m = m.cr2

unfoldable pub x86_get_cr3 : Machine → ℕ
x86_get_cr3 m = m.cr3

unfoldable pub x86_set_cr3 : ℕ → Machine → Machine
x86_set_cr3 val m = record m { cr3 = val }

unfoldable pub x86_get_cr4 : Machine → ℕ
x86_get_cr4 m = m.cr4

unfoldable pub x86_set_cr4 : ℕ → Machine → Machine
x86_set_cr4 val m = record m { cr4 = val }

unfoldable pub x86_get_fs_offset : (offset : ℕ) → Machine → ℕ
x86_get_fs_offset offset m = m.fs offset

unfoldable pub x86_set_fs_offset : (offset val : ℕ) → Machine → Machine
x86_set_fs_offset offset val m = record m { fs = λ o. if o == offset then val else m.fs o }

unfoldable pub x86_get_gs_offset : (offset : ℕ) → Machine → ℕ
x86_get_gs_offset offset m = m.gs offset

unfoldable pub x86_set_gs_offset : (offset val : ℕ) → Machine → Machine
x86_set_gs_offset offset val m = record m { gs = λ o. if o == offset then val else m.gs o }
