-- ===== src/Pmm/Range.antt =====
-- pmm.c: `pmm_alloc_range`, with the list that may be `NULL` as an option. `none` as a whole result
-- is a write through `NULL`: to the list, or to the links of a page that is on no free list.
use rix_draft.Base.{
  ℕ, zero, suc, ◌+◌, ◌-◌, ◌/◌, true, false, Option, none, some, List, [], ◌∷◌, ◌++◌, bit_and, u64,
  ◌==◌, if◌then◌else◌, count, unlink,
}
use rix_draft.Align.{round_down}
use rix_draft.Pmm.{Pmm, Zone, page_size, page_at, address_belongs, mark, nonfree, decrement}

-- The variables of the loops: the pages to go, the next address, the list and the flags.
pub record Run : Type 0 where
  pub left : ℕ
  pub address : ℕ
  pub list : Option (List ℕ)
  pub flags : ℕ → ℕ

-- One round of the inner `while`: `page` is the page at `address`.
unfoldable pub claim : ℕ → Zone → Run → Option (Zone × Run)
claim page z r = if count page z.free_pages == 0 then none else (elim r.list [
  | none ↦ none
  | some out ↦ some (
    record z { free_count = decrement z.free_count; free_pages = unlink page z.free_pages },
    record {
      left = r.left - 1;
      address = u64 (r.address + page_size);
      list = some (out ++ page ∷ []);
      flags = mark r.flags page;
    },
  )
])

-- The inner `while`, which runs at most `rounds` times: each round takes one page.
unfoldable pub range_zone : ℕ → Zone → Run → Option (Zone × Run)
range_zone zero z r = some (z, r)
range_zone (suc rounds) z r = elim (address_belongs r.address z) [
  | false ↦ some (z, r)
  | true ↦ elim (bit_and (r.flags (page_at z ((r.address - z.base) / page_size))) nonfree == 0) [
    | false ↦ some (z, r)
    | true ↦ elim (claim (page_at z ((r.address - z.base) / page_size)) z r) [
      | none ↦ none
      | some (z', r') ↦ range_zone rounds z' r'
    ]
  ]
]

unfoldable pub range_zones : List Zone → Run → Option (List Zone × Run)
range_zones [] r = some ([], r)
range_zones (z ∷ zs) r = elim (range_zone r.left z r) [
  | none ↦ none
  | some (z', r') ↦ elim (r'.left == 0) [
    | true ↦ some (z' ∷ zs, r')
    | false ↦ elim (range_zones zs r') [ none ↦ none | some (zs', r'') ↦ some (z' ∷ zs', r'') ]
  ]
]

-- The number of pages, the list and the state behind `pmm_alloc_range(address, count, list)`.
unfoldable pub alloc_range :
    (address wanted : ℕ) → Option (List ℕ) → Pmm → Option (ℕ × Option (List ℕ) × Pmm)
alloc_range address wanted list s =
    if wanted == 0
    then some (0, list, s)
    else (elim (range_zones s.zone_list (record {
      left = wanted;
      address = round_down address page_size;
      list = list;
      flags = s.flags;
    })) [
      | none ↦ none
      | some (zones, r) ↦
          some (wanted - r.left, r.list, record s { zone_list = zones; flags = r.flags })
    ])
