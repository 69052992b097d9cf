-- ===== src/Mmu/Setup.antt =====
-- mmu.c: `x86_mmu_init` and its checks of the processor, with the bits of x86.h as that file gives them.
use rix_draft.Base.{
  ℕ, ◌*◌, ◌/◌, ◌%◌, ◌^◌, ◌<◌, ◌≡◌, refl, Bool, true, false, not, ◌&&◌, u8, u32, bit_and, bit_or,
  ◌>>>◌, ◌==◌, if◌then◌else◌, arith, ◌∙◌, ap,
}
use rix_draft.Base.Bits.{bit_or_at, bit_or_beside, two-pow_at, bit_and_mask}
use rix_draft.Machine.{
  Machine, x86_cpuid, x86_read_msr, x86_write_msr, x86_get_cr0, x86_set_cr0, x86_get_cr4,
  x86_set_cr4,
}

-- `X86_CR0_WP_BIT`, `X86_CR4_SMEP_BIT`, `X86_CR4_SMAP_BIT`, `X86_IA32_MSR_EFER` and its bit NXE.
abbrev pub cr0_wp_bit : ℕ
cr0_wp_bit = 0x0001_0000

abbrev pub cr4_smep_bit : ℕ
cr4_smep_bit = 0x0020_0000

abbrev pub cr4_smap_bit : ℕ
cr4_smap_bit = 0x0040_0000

abbrev pub msr_efer : ℕ
msr_efer = 0xc000_0080

abbrev pub efer_nxe : ℕ
efer_nxe = 0x0000_1000

unfoldable pub x86_cpuid_get_addr_width : Machine → ℕ
x86_cpuid_get_addr_width m = (x86_cpuid 0x8000_0008 m).eax

unfoldable pub x86_check_smep_availability : Machine → Bool
x86_check_smep_availability m = not (bit_and ((x86_cpuid 0x7 m).ebx >>> 6) 0x1 == 0)

unfoldable pub x86_check_smap_availability : Machine → Bool
x86_check_smap_availability m = not (bit_and ((x86_cpuid 0x7 m).ebx >>> 19) 0x1 == 0)

-- The machine with the two widths of addresses.
pub record Setup : Type 0 where
  pub machine : Machine
  pub paddr_width : ℕ
  pub vaddr_width : ℕ

unfoldable pub x86_mmu_init : Setup → Setup
unfolding x86_get_cr0 x86_set_cr0 x86_get_cr4 x86_set_cr4 x86_check_smep_availability
    x86_check_smap_availability x86_cpuid_get_addr_width
x86_mmu_init s =
    let m = s.machine in
    let m1 = x86_set_cr0 (bit_or (x86_get_cr0 m) cr0_wp_bit) m in
    let cr4 = x86_get_cr4 m1 in
    let cr4' = if x86_check_smap_availability m1 then bit_or cr4 cr4_smap_bit else cr4 in
    let cr4'' = if x86_check_smep_availability m1 then bit_or cr4' cr4_smep_bit else cr4' in
    let m2 = x86_set_cr4 cr4'' m1 in
    let m3 = x86_write_msr msr_efer (bit_or (x86_read_msr msr_efer m2) efer_nxe) m2 in
    let addr_width = x86_cpuid_get_addr_width m3 in
    record {
      machine = m3;
      paddr_width = u8 (bit_and addr_width 0xff);
      vaddr_width = u8 (bit_and (addr_width >>> 8) 0xff);
    }

-- A bit of a word with one more bit set.
set_at : (n k a : ℕ) → bit_or a (2 ^ n) / 2 ^ k % 2 ≡ (if k == n then 1 else a / 2 ^ k % 2)
set_at n k a = ground (arith, bit_or_at k a (2 ^ n), two-pow_at n k)

set_at_if :
    (b : Bool) (n k a : ℕ)
    → (if b then bit_or a (2 ^ n) else a) / 2 ^ k % 2 ≡ (if b && (k == n) then 1 else a / 2 ^ k % 2)
set_at_if true n k a = set_at n k a
set_at_if false n k a = refl

-- `x86_mmu_init` sets bit 16 of CR0; in CR4 it sets bit 22 if the check for SMAP says so and bit 21 if
-- the check for SMEP does; all other bits of the two stay. It takes the widths of the addresses from
-- the bytes that the processor answers.
pub x86_mmu_init_lem :
    (s : Setup) (k : ℕ)
    → ((x86_mmu_init s).machine.cr0 / 2 ^ k % 2
        ≡ (if k == 16 then 1 else s.machine.cr0 / 2 ^ k % 2))
      × ((x86_mmu_init s).machine.cr4 / 2 ^ k % 2 ≡ (
          if x86_check_smep_availability s.machine && (k == 21)
          then 1
          else if x86_check_smap_availability s.machine && (k == 22)
          then 1
          else s.machine.cr4 / 2 ^ k % 2))
      × ((x86_mmu_init s).paddr_width ≡ (s.machine.answer 0x8000_0008 0).eax % 256)
      × ((x86_mmu_init s).vaddr_width ≡ (s.machine.answer 0x8000_0008 0).eax / 256 % 256)
unfolding x86_mmu_init x86_write_msr x86_cpuid x86_set_cr0 x86_get_cr0 x86_set_cr4 x86_get_cr4
    x86_check_smep_availability x86_check_smap_availability x86_cpuid_get_addr_width
x86_mmu_init_lem s k =
    let smep = x86_check_smep_availability s.machine in
    let smap = x86_check_smap_availability s.machine in
    let cr4 = s.machine.cr4 in
    (
      set_at 16 k s.machine.cr0,
      set_at_if smep 21 k (if smap then bit_or cr4 (2 ^ 22) else cr4)
          ∙ ap (λ (t : ℕ). if smep && (k == 21) then 1 else t) (set_at_if smap 22 k cr4),
      omega (arith, bit_and_mask 8 (s.machine.answer 0x8000_0008 0).eax),
      omega (arith, bit_and_mask 8 ((s.machine.answer 0x8000_0008 0).eax / 256)),
    )

-- In the register EFER `x86_mmu_init` sets bit 12 and leaves bit 11 as it was.
pub x86_mmu_init-efer :
    (s : Setup)
    → s.machine.msr msr_efer < 2 ^ 64
    → ((x86_mmu_init s).machine.msr msr_efer / 2 ^ 12 % 2 ≡ 1)
      × ((x86_mmu_init s).machine.msr msr_efer / 2 ^ 11 % 2 ≡ s.machine.msr msr_efer / 2 ^ 11 % 2)
unfolding x86_mmu_init x86_write_msr x86_read_msr x86_set_cr0 x86_set_cr4
x86_mmu_init-efer s h =
    let efer = s.machine.msr msr_efer in
    let whole : bit_or (u32 (efer / 2 ^ 32) * 2 ^ 32) (u32 efer) ≡ efer =
      omega (arith, bit_or_beside 32 (u32 (efer / 2 ^ 32)) (u32 efer) (omega arith)) in
    rw whole (omega (arith, set_at 12 12 efer), omega (arith, set_at 12 11 efer))
