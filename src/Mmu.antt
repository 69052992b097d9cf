-- ===== src/Mmu.antt =====
-- mmu.h, mmu.c, ptable.h: the tests of addresses and the walk of the page tables. The tables are
-- read through a memory of 64-bit words by address. `paddr_width` and `vaddr_width` are arguments.
-- KERNEL_ASPACE_BASE is the value that the Makefile defines.
pub mod Checks
pub mod Walk
pub mod Setup
use rix_draft.Base.{
  ℕ, zero, suc, ◌+◌, ◌-◌, ◌*◌, ◌/◌, ◌^◌, Bool, true, false, ◌&&◌, ◌||◌, Option, none, some, bit_and,
  u64, u32, sub64, not64, ◌<<<◌, ◌>>>◌, ltb, leb, ◌==◌, if◌then◌else◌,
}
use rix_draft.Align.{is_aligned}

abbrev pub kernel_aspace_base : ℕ
kernel_aspace_base = 0xffff_ff80_0000_0000

-- `X86_P2KV` and `X86_KV2P`
abbrev pub to_virtual : ℕ → ℕ
to_virtual x = u64 (x + kernel_aspace_base)

abbrev pub to_physical : ℕ → ℕ
to_physical x = sub64 x kernel_aspace_base

unfoldable pub check_vaddr : (vaddr_width vaddr : ℕ) → Bool
check_vaddr vaddr_width vaddr =
    if is_aligned vaddr 4096
    then (let lohalf_max = sub64 (u64 (1 <<< (vaddr_width - 1))) 1 in
        let hihalf_min = not64 lohalf_max in ltb lohalf_max vaddr || ltb vaddr hihalf_min)
    else false

unfoldable pub check_paddr : (paddr_width paddr : ℕ) → Bool
check_paddr paddr_width paddr =
    if is_aligned paddr 4096 then leb paddr (sub64 (u64 (1 <<< paddr_width)) 1) else false

pub data Status : Type 0 where
  no_error entry_not_present out_of_memory invalid_args : Status

-- `x86_page_level_t`
pub data Level : Type 0 where
  frame pt pd pdp pml4 : Level

abbrev pub Words : Type 0
Words = ℕ → ℕ

-- `VADDR_TO_PML4_INDEX` and its kin, for shifts of 39, 30, 21 and 12.
abbrev pub table_index : ℕ → ℕ → ℕ
table_index vaddr shift = bit_and (vaddr >>> shift) 0x1ff

-- `x86_get_pml4e_from_pml4t` and its three kin: the entry of a table, as a kernel address.
abbrev pub entry_at : Words → ℕ → ℕ → ℕ → ℕ
entry_at mem vaddr shift table = to_virtual (mem (u64 (table + table_index vaddr shift * 8)))

-- Bit 0, `X86_PAGE_BIT_P`, and bit 7, `X86_PAGE_BIT_PS`.
abbrev pub present : ℕ → Bool
present entry = if bit_and entry 0x1 == 0 then false else true

abbrev pub huge : ℕ → Bool
huge entry = if bit_and entry 0x80 == 0 then false else true

-- `x86_get_pfn_from_pde` and `x86_get_pfn_from_pte`
abbrev pub pfn_of_pde : ℕ → ℕ
pfn_of_pde pde = bit_and pde 0x000f_ffff_ffe0_0000

abbrev pub pfn_of_pte : ℕ → ℕ
pfn_of_pte pte = bit_and pte 0x000f_ffff_ffff_f000

-- The status and the three values that are written through the pointers.
pub record Lookup : Type 0 where
  pub status : Status
  pub last_valid_entry : ℕ
  pub flags : ℕ
  pub level : Level

-- `x86_mmu_get_mapping`, for pointers that are not `NULL`.
unfoldable pub get_mapping : Words → (vaddr table : ℕ) → Lookup
get_mapping mem vaddr table =
    let pml4e = entry_at mem vaddr 39 table in
    let pdpe = entry_at mem vaddr 30 pml4e in
    let pde = entry_at mem vaddr 21 pdpe in
    let pte = entry_at mem vaddr 12 pde in
    if present pml4e
    then if present pdpe
      then if present pde
        then if huge pde
          then record {
            status = no_error;
            last_valid_entry = u64 (pfn_of_pde (to_physical pde) + bit_and vaddr 0x1f_ffff);
            flags = 0;
            level = frame;
          }
          else if present pte
          then record {
            status = no_error;
            last_valid_entry = u64 (pfn_of_pte (to_physical pte) + bit_and vaddr 0xfff);
            flags = bit_and pte 0xfff;
            level = frame;
          }
          else record { status = entry_not_present; last_valid_entry = pde; flags = 0; level = pt }
        else record { status = entry_not_present; last_valid_entry = pdpe; flags = 0; level = pd }
      else record { status = entry_not_present; last_valid_entry = pml4e; flags = 0; level = pdp }
    else record { status = entry_not_present; last_valid_entry = table; flags = 0; level = pml4 }

-- What `x86_mmu_query` stores through `paddr` and `flags` (32 bits), or the status of the failure.
-- The value of the register `cr3` is an argument.
unfoldable pub query : Words → (cr3 vaddr : ℕ) → Status × Option (ℕ × ℕ)
unfolding get_mapping
query mem cr3 vaddr = report (get_mapping mem vaddr (to_virtual cr3))
  where
    report : Lookup → Status × Option (ℕ × ℕ)
    report w = elim w.status [
      | no_error ↦ (no_error, some (w.last_valid_entry, u32 w.flags))
      | other ↦ (other, none)
    ]
