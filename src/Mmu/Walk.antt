-- ===== src/Mmu/Walk.antt =====
-- mmu.c: what the walk of the page tables finds.
use rix_draft.Base.{
  ℕ, ◌+◌, ◌-◌, ◌*◌, ◌/◌, ◌%◌, ◌^◌, ◌<◌, ◌≡◌, ◌∙◌, ap, ◌↔◌, ◌⊎◌, Bool, true, false, ◌&&◌, ◌||◌, u64,
  arith,
}
use rix_draft.Base.Bits.{bit_and_mask, bit_and_high}
use rix_draft.Mmu.{
  to_virtual, to_physical, no_error, entry_not_present, frame, Words, table_index, entry_at,
  present, huge, pfn_of_pte, pfn_of_pde, get_mapping,
}

-- The entries that a walk reads one after the other.
module _ (mem : Words) (vaddr table : ℕ) where
  abbrev pub pml4e : ℕ
  pml4e = entry_at mem vaddr 39 table

  abbrev pub pdpe : ℕ
  pdpe = entry_at mem vaddr 30 pml4e

  abbrev pub pde : ℕ
  pde = entry_at mem vaddr 21 pdpe

  -- The word of the page table that describes the page.
  abbrev pub pt_word : ℕ
  pt_word = mem (u64 (pde + table_index vaddr 12 * 8))

  abbrev pub walked : Bool
  walked =
      present pml4e && (present pdpe && (present pde && (huge pde || present (to_virtual pt_word))))

  -- The walk succeeds exactly when every entry on its way is present, down to a page of 4 KiB or to
  -- a huge page, and the level tells the two outcomes apart.
  pub get_mapping_iff :
      (((get_mapping mem vaddr table).status ≡ no_error) ↔ (walked ≡ true))
      × (((get_mapping mem vaddr table).level ≡ frame)
          ↔ ((get_mapping mem vaddr table).status ≡ no_error))
      × (((get_mapping mem vaddr table).status ≡ no_error)
          ⊎ ((get_mapping mem vaddr table).status ≡ entry_not_present))
  unfolding get_mapping
  get_mapping_iff = ground arith

to_physical-to_virtual : (x : ℕ) → x < 2 ^ 64 → to_physical (to_virtual x) ≡ x
to_physical-to_virtual x h = omega arith

pfn_of_pte_lem : (x : ℕ) → pfn_of_pte x ≡ x / 4096 % 2 ^ 40 * 4096
pfn_of_pte_lem x =
    bit_and_high 12 x (2 ^ 40 - 1) ∙ ap (λ (t : ℕ). t * 4096) (bit_and_mask 40 (x / 4096))

pfn_of_pde_lem : (x : ℕ) → pfn_of_pde x ≡ x / 0x20_0000 % 2 ^ 31 * 0x20_0000
pfn_of_pde_lem x =
    bit_and_high 21 x (2 ^ 31 - 1) ∙ ap (λ (t : ℕ). t * 0x20_0000) (bit_and_mask 31 (x / 0x20_0000))

-- For a page of 4 KiB the walk gives the frame of the page table's word, bits 12 to 51, with the
-- offset of the virtual address, and the low twelve bits of the word as the flags.
pub get_mapping-small :
    (mem : Words) (vaddr table : ℕ)
    → walked mem vaddr table ≡ true
    → huge (pde mem vaddr table) ≡ false
    → pt_word mem vaddr table < 2 ^ 64
    → ((get_mapping mem vaddr table).last_valid_entry
        ≡ pt_word mem vaddr table / 4096 % 2 ^ 40 * 4096 + vaddr % 4096)
      × ((get_mapping mem vaddr table).flags ≡ pt_word mem vaddr table % 4096)
unfolding get_mapping
get_mapping-small mem vaddr table w small fits =
    let word = pt_word mem vaddr table in
    let p1 : present (pml4e mem vaddr table) ≡ true = ground arith in
    let p2 : present (pdpe mem vaddr table) ≡ true = ground arith in
    let p3 : present (pde mem vaddr table) ≡ true = ground arith in
    let p4 : present (to_virtual word) ≡ true = ground arith in
    rw (p1, p2, p3, small, p4)
      (
        omega (
          arith,
          pfn_of_pte_lem (to_physical (to_virtual word)),
          to_physical-to_virtual word fits,
          bit_and_mask 12 vaddr,
        ),
        omega (arith, bit_and_mask 12 (to_virtual word)),
      )

-- Below the first table the walk reads from odd addresses: the entry is used as the address of the
-- next table with its flags, and the present bit is one of them.
pub walk_misaligned :
    (entry vaddr shift : ℕ)
    → present entry ≡ true
    → u64 (entry + table_index vaddr shift * 8) % 2 ≡ 1
walk_misaligned entry vaddr shift h = ground (arith, bit_and_mask 1 entry)
