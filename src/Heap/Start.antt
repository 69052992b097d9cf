-- ===== src/Heap/Start.antt =====
-- kheap.c, pgalloc.c, pmm.c: `kheap_init` with its call of `kpage_first_alloc`.
use rix_draft.Base.{
  ℕ, ◌+◌, ◌-◌, ◌*◌, ◌%◌, ◌^◌, ◌<◌, ◌≡◌, Option, none, some, List, [], ◌∷◌, refl, ap, ltb,
  if◌then◌else◌,
}
use rix_draft.Pmm.{Pmm, Zone, page_bytes, page_at, frame_count}
use rix_draft.Pmm.Release.{Mapping}
use rix_draft.Pmm.Kernel.{kpage_first_alloc, Covers, kpage_first_alloc_lem}
use rix_draft.Heap.{Heap, kheap_init}

-- `none` is undefined behaviour: on the way to the page, or where the page is `NULL`, which is not
-- tested for: `heap_create_free_chunk` writes its length through it, unless the length is 0.
abbrev pub kheap_from : (len : ℕ) → Option (Option ℕ × Pmm) → Option (Heap × Pmm)
kheap_from len none = none
kheap_from len (some (none, s)) = if ltb 0 len then none else some (kheap_init 0 len, s)
kheap_from len (some (some ptr, s)) = some (kheap_init ptr len, s)

unfoldable pub kheap_init_of : List Mapping → Pmm → Option (Heap × Pmm)
unfolding kpage_first_alloc
kheap_init_of maps s = kheap_from (kpage_first_alloc maps s).0 (kpage_first_alloc maps s).1

kheap_init-aligned :
    (ptr : ℕ)
    → ptr % 8 ≡ 0
    → kheap_init ptr 4096 ≡ record {
      base = ptr;
      len = 4096;
      remaining = 4096;
      free_list = record { addr = ptr; len = 4096 } ∷ [];
    }
unfolding kheap_init
kheap_init-aligned ptr aligned = rw aligned refl

module _ (map : Mapping) (maps : List Mapping) (z : Zone) (zs : List Zone) (ps : List ℕ) (index : ℕ)
    (s : Pmm) where
  abbrev kernel_page : ℕ
  kernel_page = map.virt + (z.base + index * 4096 - map.phys)

  -- Where the first free page of the first zone is one that `PAGE_BELONGS_TO_ZONE` knows, its offset
  -- in bytes being below the number of frames of the zone, where the zone counts free pages and has
  -- an array that is not `NULL` and does not wrap, where the zone lies in the first mapping, neither
  -- side of which wraps, and where the mapped page is aligned to 8 bytes, `kheap_init` takes that page
  -- off the zone and makes one free chunk of all its bytes.
  pub kheap_init_of_lem :
      s.zone_list ≡ z ∷ zs
      → z.free_pages ≡ page_at z index ∷ ps
      → 0 < z.free_count
      → 0 < z.page_array
      → z.page_array + frame_count z * page_bytes < 2 ^ 64
      → index * page_bytes < frame_count z
      → Covers map maps z
      → kernel_page % 8 ≡ 0
      → (h : Heap) × (s' : Pmm) × (kheap_init_of (map ∷ maps) s ≡ some (h, s'))
        × (h.free_list ≡ record { addr = kernel_page; len = 4096 } ∷ [])
        × (h.remaining ≡ 4096)
        × (s'.zone_list ≡ record z { free_count = z.free_count - 1; free_pages = ps } ∷ zs)
  kheap_init_of_lem e f full real fits known covers aligned =
      let (s', given, left) =
        kpage_first_alloc_lem map maps z zs ps index s e f full real fits known covers in
      let made = kheap_init-aligned kernel_page aligned in
      (
        kheap_init kernel_page 4096,
        s',
        unfold kheap_init_of in ap (λ (r : ℕ × Option (Option ℕ × Pmm)). kheap_from r.0 r.1) given,
        ap (λ (h : Heap). h.free_list) made,
        ap (λ (h : Heap). h.remaining) made,
        left,
      )
