-- ===== src/Pmm/Release.antt =====
-- pmm.c: giving pages back, and the conversions between pages and addresses. The pages that are given
-- back are on no free list: for a page that is still on one, the code rewrites links of that list,
-- which sequences do not show and `free_pages` of Pmm.Linked does.
use rix_draft.Base.{
  ℕ, ◌+◌, ◌-◌, ◌*◌, ◌/◌, Bool, true, false, ◌&&◌, Option, none, some, List, [], ◌∷◌, u64, ltb, leb,
  if◌then◌else◌,
}
use rix_draft.Pmm.{Pmm, Zone, page_size, page_at, page_belongs, page_index, unmark}

-- The search for the zone of a page, with the page put first on that zone's free list.
unfoldable pub give_back : ℕ → List Zone → Bool × List Zone
give_back page [] = (false, [])
give_back page (z ∷ zs) =
    let rest = give_back page zs in
    if page_belongs page z
    then (true, record z { free_count = z.free_count + 1; free_pages = page ∷ z.free_pages } ∷ zs)
    else (rest.0, z ∷ rest.1)

-- `pmm_free_pages`: the number of pages that were freed. A page that no zone owns is dropped.
unfoldable pub free_pages : List ℕ → Pmm → ℕ × Pmm
free_pages [] s = (0, s)
free_pages (page ∷ pages) s =
    let (found, zones) = give_back page s.zone_list in
    let s' = if found then record s { zone_list = zones; flags = unmark s.flags page } else s in
    let (freed, s'') = free_pages pages s' in ((if found then 1 else 0) + freed, s'')

unfoldable pub free_page : ℕ → Pmm → ℕ × Pmm
unfolding free_pages
free_page page s = free_pages (page ∷ []) s

-- `vm_page_to_paddr`, with -1 as 2 ^ 64 - 1 where no zone owns the page.
unfoldable pub page_to_paddr : ℕ → List Zone → ℕ
page_to_paddr page [] = 0xffff_ffff_ffff_ffff
page_to_paddr page (z ∷ zs) =
    let rest = page_to_paddr page zs in
    if page_belongs page z then u64 (page_index page z * page_size + z.base) else rest

-- `paddr_to_vm_page`, which tests the physical address as if it were the address of a page. The
-- subtraction wraps where the address lies below the base of the zone.
unfoldable pub paddr_to_page : ℕ → List Zone → Option ℕ
paddr_to_page addr [] = none
paddr_to_page addr (z ∷ zs) =
    let rest = paddr_to_page addr zs in
    if page_belongs addr z
    then some (u64 (page_at z (u64 (addr + 0x1_0000_0000_0000_0000 - z.base) / page_size)))
    else rest

-- `mmu_initial_mapping_t`, with the entry of size 0 at the end of the array left out.
pub record Mapping : Type 0 where
  pub phys : ℕ
  pub virt : ℕ
  pub size : ℕ

-- `paddr_to_kvaddr`, where `none` is `NULL`. The loop ends at the first mapping of size 0.
unfoldable pub paddr_to_kvaddr : ℕ → List Mapping → Option ℕ
paddr_to_kvaddr pa [] = none
paddr_to_kvaddr pa (map ∷ maps) =
    let rest = paddr_to_kvaddr pa maps in
    if ltb 0 map.size
    then (if leb map.phys pa && leb pa (u64 (map.phys + map.size + 0xffff_ffff_ffff_ffff))
        then some (u64 (map.virt + (pa - map.phys)))
        else rest)
    else none
