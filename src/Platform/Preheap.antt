-- ===== src/Platform/Preheap.antt =====
-- vm.c: `vm_init_preheap`, with the page tables that the processor walks and the list of address spaces.
use rix_draft.Base.{
  ℕ, suc, ◌+◌, ◌-◌, ◌/◌, ◌≡◌, refl, ◌∙◌, ap, true, Option, Option-cases, inl, inr, none, some, List,
  ◌∷◌, bit_and, u64, sub64, ◌==◌,
}
use rix_draft.Align.{round_down, round_up}
use rix_draft.LinkedList.{Ptr, Links}
use rix_draft.Vmm.{Aspace, vmm_init_preheap}
use rix_draft.Mmu.{Words, no_error, get_mapping, query, to_virtual}
use rix_draft.Pmm.{Pmm, Zone, page_size, page_at, address_belongs, nonfree}
use rix_draft.Platform.{mark_loop, mark_pages_in_use, mark_kernel_pages}
use rix_draft.Platform.InUse.{mark_loop-null}

-- `x86_mmu_query(va, &pa, NULL)`: what it stores, if the status is `MMU_NO_ERROR`.
unfoldable pub looked_up : Words → (cr3 va : ℕ) → Option ℕ
unfolding query
looked_up mem cr3 va = elim (query mem cr3 va).1 [ none ↦ none | some (pa, flags) ↦ some pa ]

unfoldable pub vm_init_preheap :
    (aspace_list : Ptr) (kernel_aspace : Aspace)
    → Words
    → (cr3 code_start end_symbol : ℕ) → Links × Pmm
    → Option (Links × Pmm)
unfolding vmm_init_preheap mark_kernel_pages looked_up
vm_init_preheap aspace_list kernel_aspace mem cr3 code_start end_symbol (m, s) =
    elim (vmm_init_preheap aspace_list kernel_aspace m) [
      | none ↦ none
      | some (u, m') ↦ elim (mark_kernel_pages (looked_up mem cr3) code_start end_symbol s) [
        | none ↦ none
        | some s' ↦ some (m', s')
      ]
    ]

-- The pages that the bytes from an address on touch.
abbrev pub pages_touched : (va len : ℕ) → ℕ
pages_touched va len = round_up (u64 (len + bit_and (round_down va 4096) 0xfff)) 4096 / 4096

-- `vm_init_preheap` writes through `NULL` if the page tables map the first page of the kernel, which is not
-- empty, to a frame of the first zone whose page is free.
pub vm_init_preheap-null :
    (aspace_list : Ptr) (kernel_aspace : Aspace) (mem : Words) (cr3 code_start end_symbol left : ℕ)
    (m : Links) (s : Pmm) (z : Zone) (zs : List Zone)
    → pages_touched code_start (sub64 end_symbol code_start) ≡ suc left
    → s.zone_list ≡ z ∷ zs
    → let found = get_mapping mem (round_down code_start 4096) (to_virtual cr3) in
      let page = round_down found.last_valid_entry page_size in
      found.status ≡ no_error
      → address_belongs page z ≡ true
      → (bit_and (s.flags (page_at z ((page - z.base) / page_size))) nonfree == 0) ≡ true
      → vm_init_preheap aspace_list kernel_aspace mem cr3 code_start end_symbol (m, s) ≡ none
unfolding vm_init_preheap mark_kernel_pages mark_pages_in_use looked_up query
vm_init_preheap-null aspace_list kernel_aspace mem cr3 code_start end_symbol left m s z zs touched e
      mapped holds free =
    let found = get_mapping mem (round_down code_start 4096) (to_virtual cr3) in
    let seen : looked_up mem cr3 (round_down code_start 4096) ≡ some found.last_valid_entry =
      rw (looked_up, query, mapped) refl in
    let fault =
      mark_loop-null (looked_up mem cr3) left (round_down code_start 4096) found.last_valid_entry z
        zs s seen e holds free in
    let marking : mark_pages_in_use (looked_up mem cr3) code_start (sub64 end_symbol code_start) s
        ≡ none =
      ap (λ n. mark_loop (looked_up mem cr3) n (round_down code_start 4096) s) touched ∙ fault in
    let whole : mark_kernel_pages (looked_up mem cr3) code_start end_symbol s ≡ none =
      rw (mark_kernel_pages, marking) refl in
    elim (Option-cases (vmm_init_preheap aspace_list kernel_aspace m)) [
      | inl n ↦ rw (vm_init_preheap, n) refl
      | inr (r, n) ↦ rw (vm_init_preheap, n, whole) refl
    ]
