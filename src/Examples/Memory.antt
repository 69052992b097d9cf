-- ===== src/Examples/Memory.antt =====
-- stdlib.h, balloc.c, pmm.c, string.c, kheap.c: the theorems about memory at concrete states.
use rix_draft.Base.{ℕ, ◌+◌, ◌*◌, ◌%◌, ◌<◌, ◌≡◌, refl, ◌⊎◌, ◌↔◌, true, inr, [], ◌∷◌, some, arith, u8}
use rix_draft.Align.{round_down}
use rix_draft.Balloc.{BootAlloc, balloc_all, Stacked, balloc_all-Stacked}
use rix_draft.Pmm.{Pmm, Zone, no_error, invalid_args, page_at, page_belongs, add_zone, alloc_page}
use rix_draft.Pmm.Alloc.{Added, Taken, Marked, add_zone_lem, alloc_page_lem}
use rix_draft.Pmm.Release.{free_page}
use rix_draft.Pmm.Freeing.{page_belongs_iff, free_page-lost, free_page-alloc_page}
use rix_draft.Pmm.Range.{alloc_range}
use rix_draft.Pmm.Claims.{IsListed}
use rix_draft.Pmm.Runs.{alloc_range_run}
use rix_draft.Pmm.Release.{Mapping}
use rix_draft.Heap.Start.{kheap_init_of, kheap_init_of_lem}
use rix_draft.CString.{Memory, memset, memcpy}
use rix_draft.CString.Fill.{written, filled, memset_lem}
use rix_draft.CString.Copy.{memcpy_lem}
use rix_draft.Heap.{Chunk, Heap}

abbrev boot : BootAlloc
boot = record { boot_alloc_start = 0x10_0003; boot_alloc_end = 0x10_0003 }

balloc_all_example :
    Stacked 0x10_0003
      (balloc_all (5 ∷ 24 ∷ 1 ∷ []) boot).0
      (balloc_all (5 ∷ 24 ∷ 1 ∷ []) boot).1.boot_alloc_end
balloc_all_example = balloc_all-Stacked (5 ∷ 24 ∷ 1 ∷ []) boot (omega arith)

-- A zone of 48 frames, of which the first three are free.
abbrev zone : Zone
zone = record {
  base = 0x20_0000;
  size = 48 * 4096;
  page_array = 0x1000;
  free_count = 3;
  free_pages = 0x1000 ∷ 0x1018 ∷ 0x1030 ∷ [];
}

abbrev pmm : Pmm
pmm = record { zone_list = zone ∷ []; flags = λ p. 0; boot = boot }

add_zone_example :
    ((◌≡◌ {A = ℕ} 0x3000 0) × (add_zone 0x40_0000 0x3000 pmm ≡ some (invalid_args, pmm)))
    ⊎ ((array : ℕ) × (s' : Pmm) × (add_zone 0x40_0000 0x3000 pmm ≡ some (no_error, s'))
        × Added 0x40_0000 0x3000 pmm array s')
add_zone_example =
    add_zone_lem 0x40_0000 0x3000 pmm (refl, tt)
      (((omega arith), ((omega arith), ((omega arith), tt))), tt) (omega arith) (omega arith)
      (omega arith)

alloc_page_example :
    ((alloc_page pmm).0 ≡ no_error)
    × Taken (zone ∷ []) ((alloc_page pmm).1, (alloc_page pmm).2.zone_list)
    × Marked (alloc_page pmm).1 (λ p. 0) (alloc_page pmm).2.flags
    × ((alloc_page pmm).2.boot ≡ boot)
alloc_page_example = alloc_page_lem pmm (refl, tt)

page_belongs_example : (page_belongs (page_at zone 2) zone ≡ true) ↔ (2 * 24 < 48)
page_belongs_example = page_belongs_iff zone 2 (omega arith) (omega arith)

free_page_lost_example : free_page (page_at zone 3) pmm ≡ (0, pmm)
free_page_lost_example =
    free_page-lost zone 3 pmm refl (omega arith) (omega arith) refl (omega arith)

free_page_example :
    ((alloc_page pmm).1 ≡ some 0x1000)
    × ((free_page 0x1000 (alloc_page pmm).2).0 ≡ 1)
    × ((free_page 0x1000 (alloc_page pmm).2).1.zone_list ≡ zone ∷ [])
    × ((free_page 0x1000 (alloc_page pmm).2).1.flags 0x1000 % 2 ≡ 0)
free_page_example =
    free_page-alloc_page zone [] (0x1018 ∷ 0x1030 ∷ []) 0 pmm refl refl refl (omega arith)
      (omega arith)

abbrev memory : Memory
memory = λ a. u8 a

memset_example :
    ((memset 0x1003 0x141 29 memory).0 ≡ 0x1003)
    × ((memset 0x1003 0x141 29 memory).1 0x1010
        ≡ filled 0x1003 (0x1003 + written 0x1003 29) 0x41 memory 0x1010)
memset_example = memset_lem 0x1003 0x141 29 memory 0x1010

memcpy_example :
    ((memcpy 0x1002 0x1005 8 memory).0 ≡ 0x1002) × ((memcpy 0x1002 0x1005 8 memory).1 0x1004 ≡ 7)
memcpy_example = memcpy_lem 0x1002 0x1005 8 memory 0x1004 (inr (omega arith))

abbrev chunk : ℕ → ℕ → Chunk
chunk addr len = record { addr = addr; len = len }

abbrev heap : Heap
heap = record { base = 0; len = 100; remaining = 24; free_list = chunk 8 8 ∷ chunk 64 16 ∷ [] }

-- A zone of three free frames.
abbrev small : Zone
small = record {
  base = 0x20_0000;
  size = 0x3000;
  page_array = 0x1000;
  free_count = 3;
  free_pages = 0x1000 ∷ 0x1018 ∷ 0x1030 ∷ [];
}

small-IsListed : IsListed (λ p. 0) small
small-IsListed a inside clear = ground arith

abbrev small_pmm : Pmm
small_pmm = record pmm { zone_list = small ∷ [] }

alloc_range_run_example :
    (s' : Pmm) × (alloc_range 0x20_1800 2 (some []) small_pmm
      ≡ some (2, some (0x1018 ∷ 0x1030 ∷ []), s'))
unfolding round_down
alloc_range_run_example =
    alloc_range_run 0x20_1800 2 [] small [] small_pmm refl (refl, tt) (small-IsListed, tt)
      (record {
        inside = λ i l. ground arith;
        clear = λ i l. refl;
        above = omega arith;
        fits = omega arith;
      })

-- The kernel's mapping of the first 1 GiB.
abbrev mapping : Mapping
mapping = record { phys = 0; virt = 0xffff_8000_0000_0000; size = 0x4000_0000 }

kheap_init_example :
    (h : Heap) × (s' : Pmm) × (kheap_init_of (mapping ∷ []) pmm ≡ some (h, s'))
    × (h.free_list ≡ chunk 0xffff_8000_0020_0000 4096 ∷ [])
    × (h.remaining ≡ 4096)
    × (s'.zone_list ≡ record zone { free_count = 2; free_pages = 0x1018 ∷ 0x1030 ∷ [] } ∷ [])
kheap_init_example =
    kheap_init_of_lem mapping [] zone [] (0x1018 ∷ 0x1030 ∷ []) 0 pmm refl refl (omega arith)
      (omega arith) (omega arith) (omega arith)
      (record {
        from = omega arith;
        upto = omega arith;
        phys_fits = omega arith;
        virt_fits = omega arith;
      })
      refl
