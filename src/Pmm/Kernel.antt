-- ===== src/Pmm/Kernel.antt =====
-- pmm.c, pgalloc.c: pages for the kernel. `none` as a whole result is undefined behaviour: the use of
-- a pointer that was never written, or of the value of a function that ends without a `return`.
use rix_draft.Base.{
  ℕ, ◌+◌, ◌-◌, ◌*◌, ◌^◌, ◌<◌, ◌≤◌, ◌≡◌, refl, true, false, Option, none, some, List, ◌∷◌, u64, ltb,
  leb, ◌==◌, if◌then◌else◌, arith, lt→ltb,
}
use rix_draft.Pmm.{Pmm, Zone, page_size, page_bytes, page_at, frame_count, take_page, alloc_page}
use rix_draft.Pmm.Release.{Mapping, page_to_paddr, paddr_to_kvaddr}
use rix_draft.Pmm.Freeing.{page_to_paddr_lem}

-- What the fast path of `pmm_alloc_kpages` makes of the page; `none` inside is `NULL`.
abbrev pub kernel_address : List Mapping → Option ℕ → Pmm → Option (Option ℕ × Pmm)
kernel_address maps none s = none
kernel_address maps (some page) s =
    if page == 0
    then some (none, s)
    else some (paddr_to_kvaddr (page_to_paddr page s.zone_list) maps, s)

-- `list` is not used. For another count than 1 the function ends without a `return`.
unfoldable pub alloc_kpages : List Mapping → (count : ℕ) → Pmm → Option (Option ℕ × Pmm)
alloc_kpages maps count s =
    if count == 1 then kernel_address maps (alloc_page s).1 (alloc_page s).2 else none

-- A page that has an address, at an address the kernel maps.
kernel_address-some :
    (maps : List Mapping) (page pa va : ℕ) (s : Pmm) (zones : List Zone)
    → s.zone_list ≡ zones
    → (page == 0) ≡ false
    → page_to_paddr page zones ≡ pa
    → paddr_to_kvaddr pa maps ≡ some va
    → kernel_address maps (some page) s ≡ some (some va, s)
kernel_address-some maps page pa va s zones e not_null paddr kvaddr =
    rw (not_null, e, paddr, kvaddr) refl

unfoldable pub kpage_alloc : List Mapping → (pages : ℕ) → Pmm → Option (Option ℕ × Pmm)
unfolding alloc_kpages
kpage_alloc maps pages s = alloc_kpages maps pages s

-- The size that is stored through `size_return`, and the page.
unfoldable pub kpage_first_alloc : List Mapping → Pmm → ℕ × Option (Option ℕ × Pmm)
unfolding kpage_alloc
kpage_first_alloc maps s = (page_size, kpage_alloc maps 1 s)

-- An empty body; `none` is the value that is not returned.
unfoldable pub free_kpages : (ptr count : ℕ) → Pmm → Option ℕ × Pmm
free_kpages ptr count s = (none, s)

-- It returns the value that `pmm_free_kpages` does not.
unfoldable pub kpage_free : (ptr pages : ℕ) → Pmm → Option (ℕ × Pmm)
unfolding free_kpages
kpage_free ptr pages s = elim (free_kpages ptr pages s).0 [ none ↦ none | some n ↦ some (n, s) ]

module _ (map : Mapping) (maps : List Mapping) where
  -- The mapping covers the frames of a zone, and neither range wraps.
  pub record Covers (z : Zone) : Type 0 where
    pub from : map.phys ≤ z.base
    pub upto : z.base + z.size ≤ map.phys + map.size
    pub phys_fits : map.phys + map.size ≤ 2 ^ 64
    pub virt_fits : map.virt + map.size ≤ 2 ^ 64

  pub paddr_to_kvaddr_lem :
      (pa : ℕ)
      → map.phys ≤ pa
      → pa < map.phys + map.size
      → map.phys + map.size ≤ 2 ^ 64
      → map.virt + map.size ≤ 2 ^ 64
      → paddr_to_kvaddr pa (map ∷ maps) ≡ some (map.virt + (pa - map.phys))
  unfolding paddr_to_kvaddr
  paddr_to_kvaddr_lem pa l h fp fv =
      let sized : ltb 0 map.size ≡ true = ground arith in
      let from : leb map.phys pa ≡ true = ground arith in
      let upto : leb pa (u64 (map.phys + map.size + 0xffff_ffff_ffff_ffff)) ≡ true = ground arith in
      let fits : u64 (map.virt + (pa - map.phys)) ≡ map.virt + (pa - map.phys) = omega arith in
      rw (sized, from, upto, fits) refl

  module _ (z : Zone) (zs : List Zone) (ps : List ℕ) (index : ℕ) (s : Pmm) where
    -- The zones behind the allocation of the first page of the first zone.
    alloc_page-first :
        s.zone_list ≡ z ∷ zs
        → z.free_pages ≡ page_at z index ∷ ps
        → 0 < z.free_count
        → ((alloc_page s).1 ≡ some (page_at z index))
          × ((alloc_page s).2.zone_list
              ≡ record z { free_count = z.free_count - 1; free_pages = ps } ∷ zs)
    unfolding alloc_page take_page
    alloc_page-first e f full = rw (e, lt→ltb 0 z.free_count full, f) (refl, refl)

    -- Where the first free page of the first zone is one that its zone knows, and the first mapping
    -- covers the zone, `kpage_first_alloc` gives that page at its address in the kernel.
    pub kpage_first_alloc_lem :
        s.zone_list ≡ z ∷ zs
        → z.free_pages ≡ page_at z index ∷ ps
        → 0 < z.free_count
        → 0 < z.page_array
        → z.page_array + frame_count z * page_bytes < 2 ^ 64
        → index * page_bytes < frame_count z
        → Covers z
        → (s' : Pmm) × (kpage_first_alloc (map ∷ maps) s
            ≡ (page_size, some (some (map.virt + (z.base + index * page_size - map.phys)), s')))
          × (s'.zone_list ≡ record z { free_count = z.free_count - 1; free_pages = ps } ∷ zs)
    unfolding kpage_first_alloc kpage_alloc alloc_kpages
    kpage_first_alloc_lem e f full real fits known covers =
        let first = alloc_page-first e f full in
        let z' : Zone = record z { free_count = z.free_count - 1; free_pages = ps } in
        let s' = (alloc_page s).2 in
        let pa = z.base + index * page_size in
        let not_null : (page_at z index == 0) ≡ false = ground arith in
        let paddr : page_to_paddr (page_at z index) (z' ∷ zs) ≡ pa =
          page_to_paddr_lem z' zs index fits (omega (arith, covers.upto, covers.phys_fits)) known in
        let kvaddr =
          paddr_to_kvaddr_lem pa (omega (arith, covers.from)) (omega (arith, covers.upto, known))
            covers.phys_fits covers.virt_fits in
        let given =
          kernel_address-some (map ∷ maps) (page_at z index) pa (map.virt + (pa - map.phys)) s'
            (z' ∷ zs) first.1 not_null paddr kvaddr in
        (s', rw (first.0, given) refl, first.1)
