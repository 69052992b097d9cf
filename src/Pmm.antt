-- ===== src/Pmm.antt =====
-- pmm.h, pmm.c: the physical memory manager. A `vm_page_t *` is an address, and the `flags` of all
-- pages are a function of it. A `list_t` is the sequence of its nodes here;
-- Linked has the same operations on links. `none` as a whole result is undefined behaviour (a read
-- through `NULL` or through a pointer that was never written), or a loop that never ends.
pub mod Invariant
pub mod Below
pub mod Alloc
pub mod Many
pub mod Release
pub mod Range
pub mod Claims
pub mod AllocRange
pub mod Runs
pub mod Freeing
pub mod Kernel
pub mod Linked
use rix_draft.Base.{
  ℕ, zero, suc, ◌+◌, ◌-◌, ◌*◌, ◌/◌, Bool, true, false, ◌&&◌, ◌||◌, Option, none, some, List, [],
  ◌∷◌, ◌++◌, bit_or, bit_and, u32, u64, ltb, leb, ◌==◌, if◌then◌else◌,
}
use rix_draft.Balloc.{BootAlloc, balloc}
use rix_draft.CString.Fill.{written}

abbrev pub page_size : ℕ
page_size = 4096

-- `sizeof(vm_page_t)`: two links, one byte of flags, and padding.
abbrev pub page_bytes : ℕ
page_bytes = 24

-- `VM_PAGE_FLAG_NONFREE`
abbrev pub nonfree : ℕ
nonfree = 1

pub data Status : Type 0 where
  no_error invalid_arena_size contiguous_pages_not_found invalid_args : Status

pub record Zone : Type 0 where
  pub base : ℕ
  pub size : ℕ
  pub page_array : ℕ
  pub free_count : ℕ
  pub free_pages : List ℕ

pub record Pmm : Type 0 where
  pub zone_list : List Zone
  pub flags : ℕ → ℕ
  pub boot : BootAlloc

-- `ZONE_FRAME_COUNT`
abbrev pub frame_count : Zone → ℕ
frame_count z = z.size / page_size

-- `&zone->page_array[index]`
abbrev pub page_at : Zone → ℕ → ℕ
page_at z index = z.page_array + index * page_bytes

-- `ADDRESS_BELONGS_TO_ZONE`, where adding 2 ^ 64 - 1 subtracts 1.
abbrev pub address_belongs : ℕ → Zone → Bool
address_belongs addr z = leb z.base addr && leb addr (u64 (z.base + z.size + 0xffff_ffff_ffff_ffff))

-- `PAGE_BELONGS_TO_ZONE`: the count of frames is added to a `uintptr_t`, so it counts bytes.
abbrev pub page_belongs : ℕ → Zone → Bool
page_belongs page z = leb z.page_array page && ltb page (u64 (z.page_array + frame_count z))

-- `PAGE_INDEX_IN_ZONE`
abbrev pub page_index : ℕ → Zone → ℕ
page_index page z = (page - z.page_array) / page_bytes

abbrev pub set_flags : (ℕ → ℕ) → ℕ → ℕ → ℕ → ℕ
set_flags f p v q = if q == p then v else f q

-- `page->flags |= VM_PAGE_FLAG_NONFREE` and `page->flags &= ~VM_PAGE_FLAG_NONFREE`
abbrev pub mark : (ℕ → ℕ) → ℕ → ℕ → ℕ
mark f p = set_flags f p (bit_or (f p) nonfree)

abbrev pub unmark : (ℕ → ℕ) → ℕ → ℕ → ℕ
unmark f p = set_flags f p (bit_and (f p) 0xfe)

-- `free_count--` on a `size_t`, where no test guards it.
abbrev pub decrement : ℕ → ℕ
decrement n = if n == 0 then 0xffff_ffff_ffff_ffff else n - 1

-- The loop of `pmm_add_zone` at `page_idx`, a `uint32_t`. It has ended after as many rounds of fuel
-- as there are frames, and one more, or else `page_idx` wraps and it never ends: `none`.
unfoldable pub add_pages : (fuel frames page_idx : ℕ) → Zone → Option Zone
add_pages zero frames page_idx z = none
add_pages (suc fuel) frames page_idx z = elim (ltb page_idx frames) [
  | false ↦ some z
  | true ↦ add_pages fuel frames (u32 (page_idx + 1)) (record z {
    free_count = z.free_count + 1;
    free_pages = z.free_pages ++ page_at z page_idx ∷ [];
  })
]

-- The effect of `memset(array, 0, ...)` on the flags of the pages, where it writes `bytes` bytes. The
-- flags are the byte 16 of a page.
abbrev pub clear_flags : (array bytes : ℕ) → (ℕ → ℕ) → ℕ → ℕ
clear_flags array bytes f p = if leb array (p + 16) && ltb (p + 16) (array + bytes) then 0 else f p

-- Whether the `memset` leaves alone the `size` bytes of what lies at `p`.
abbrev pub is_spared : (array bytes size p : ℕ) → Bool
is_spared array bytes size p = leb (p + size) array || leb (array + bytes) p

-- Whether it leaves alone the nodes of the pages of a free list, and of all of them.
unfoldable pub nodes_spared : (array bytes : ℕ) → List ℕ → Bool
nodes_spared array bytes [] = true
nodes_spared array bytes (p ∷ ps) = is_spared array bytes 16 p && nodes_spared array bytes ps

unfoldable pub zones_spared : (array bytes : ℕ) → List Zone → Bool
unfolding nodes_spared
zones_spared array bytes [] = true
zones_spared array bytes (z ∷ zs) =
    nodes_spared array bytes z.free_pages && zones_spared array bytes zs

-- Whether there is memory where the `memset` writes: not at `NULL`, nor behind the last address.
abbrev pub is_memory : (array bytes : ℕ) → Bool
is_memory array bytes = (bytes == 0) || ltb 0 array && leb (array + bytes) 0x1_0000_0000_0000_0000

-- `pmm_add_zone`. `zone->base` and `zone->size` are what the caller has filled in. The `memset` of
-- string.c writes more bytes than it is asked for, `written` many. Where it meets the node of a free
-- page, which sequences do not show, the result is `none` too; the structures of the zones lie
-- elsewhere.
unfoldable pub add_zone : (base size : ℕ) → Pmm → Option (Status × Pmm)
unfolding add_pages nodes_spared zones_spared
add_zone base size s =
    if ltb 0 size
    then (let bytes = u64 (size / page_size * page_bytes) in
        let (array, boot) = balloc bytes s.boot in
        let reset = written array bytes in
        let frames = size / page_size in
        let added = add_pages (suc frames) frames 0 (record {
          base = base;
          size = size;
          page_array = array;
          free_count = 0;
          free_pages = [];
        }) in
        if is_memory array reset && zones_spared array reset s.zone_list
        then (elim added [
          | none ↦ none
          | some zone ↦ some (
            no_error,
            record {
              zone_list = s.zone_list ++ zone ∷ [];
              flags = clear_flags array reset s.flags;
              boot = boot;
            },
          )
        ])
        else none)
    else some (invalid_args, s)

-- The walk of `pmm_alloc_page`: the page, if one was written to `out_page`, and the zones.
unfoldable pub take_page : List Zone → Option ℕ × List Zone
take_page [] = (none, [])
take_page (z ∷ zs) =
    let rest = take_page zs in
    if ltb 0 z.free_count
    then (elim z.free_pages [
      | [] ↦ (none, z ∷ zs)
      | p ∷ ps ↦ (some p, record z { free_count = z.free_count - 1; free_pages = ps } ∷ zs)
    ])
    else (rest.0, z ∷ rest.1)

abbrev pub mark_taken : Option ℕ → (ℕ → ℕ) → ℕ → ℕ
mark_taken none f = f
mark_taken (some p) f = mark f p

-- `pmm_alloc_page`: it returns `PMM_NO_ERROR` whether or not `out_page` was written.
unfoldable pub alloc_page : Pmm → Status × Option ℕ × Pmm
alloc_page s =
    let (page, zones) = take_page s.zone_list in
    (no_error, page, record s { zone_list = zones; flags = mark_taken page s.flags })

-- The variables of the loops of `pmm_alloc_pages`: the pages that are still wanted, the list that
-- was handed in, and whether `goto done` was taken.
pub record Drain : Type 0 where
  pub wanted : ℕ
  pub list : List ℕ
  pub flags : ℕ → ℕ
  pub stop : Bool

-- The inner `while`, over the pages that are still wanted.
unfoldable pub drain_zone : ℕ → List ℕ → (ℕ → ℕ) → Zone → Zone × Drain
drain_zone zero list f z = (z, record { wanted = 0; list = list; flags = f; stop = false })
drain_zone (suc wanted) list f z = elim (ltb 0 z.free_count) [
  | false ↦ (z, record { wanted = suc wanted; list = list; flags = f; stop = false })
  | true ↦ elim z.free_pages [
    | [] ↦ (z, record { wanted = suc wanted; list = list; flags = f; stop = true })
    | p ∷ ps ↦
        drain_zone wanted (list ++ p ∷ []) (mark f p)
          (record z { free_count = z.free_count - 1; free_pages = ps })
  ]
]

-- The walk of `pmm_alloc_pages` over the zones.
unfoldable pub drain_zones : ℕ → List ℕ → (ℕ → ℕ) → List Zone → List Zone × Drain
drain_zones wanted list f [] =
    ([], record { wanted = wanted; list = list; flags = f; stop = false })
drain_zones wanted list f (z ∷ zs) =
    let here = drain_zone wanted list f z in
    let rest = drain_zones here.1.wanted here.1.list here.1.flags zs in
    if here.1.stop || here.1.wanted == 0 then (here.0 ∷ zs, here.1) else (here.0 ∷ rest.0, rest.1)

-- What `pmm_alloc_pages` does with the page of its fast path. With no free page it links a page
-- pointer that was never written.
unfoldable pub link_one : List ℕ → Status × Option ℕ × Pmm → Option (Status × ℕ × List ℕ × Pmm)
link_one list (status, none, s) = none
link_one list (status, some p, s) = some (status, 1, list ++ p ∷ [], s)

-- `pmm_alloc_pages`: the status, the new `*count`, and the list.
unfoldable pub alloc_pages : ℕ → List ℕ → Pmm → Option (Status × ℕ × List ℕ × Pmm)
alloc_pages wanted list s =
    if wanted == 0
    then some (no_error, 0, list, s)
    else if wanted == 1
    then link_one list (alloc_page s)
    else (let (zones, d) = drain_zones wanted list s.flags s.zone_list in
        some (no_error, wanted - d.wanted, d.list, record s { zone_list = zones; flags = d.flags }))
