-- ===== src/Examples/Linked.antt =====
-- pmm.c and kheap.c over the links of list.h: the theorems about memories at a small one.
use rix_draft.Base.{ℕ, ◌≡◌, refl, List, [], ◌∷◌, some, ◌==◌, if◌then◌else◌, arith}
use rix_draft.Align.{round_up, round_down}
use rix_draft.Balloc.{balloc}
use rix_draft.CString.Fill.{written}
use rix_draft.LinkedList.{Ptr, Links}
use rix_draft.LinkedList.Ring.{Ring}
use rix_draft.Pmm.{Zone, Pmm, mark}
use rix_draft.Pmm
use rix_draft.Pmm.Range
use rix_draft.Pmm.Release
use rix_draft.Pmm.Linked.{Memory, alloc_page, alloc_pages, free_pages}
use rix_draft.Pmm.Linked.Rep.{IsPmm, Unshared}
use rix_draft.Pmm.Linked.Alloc.{alloc_page-IsPmm}
use rix_draft.Pmm.Linked.Fill.{Agrees, alloc_pages-Agrees}
use rix_draft.Pmm.Linked.Free.{free_pages-IsPmm}
use rix_draft.Pmm.Linked.Range.{alloc_range}
use rix_draft.Pmm.Linked.Reserve.{alloc_range-IsPmm}
use rix_draft.Pmm.Linked.Add.{add_zone}
use rix_draft.Pmm.Linked.Grow.{add_zone-IsPmm}
use rix_draft.Pmm.Linked.Serve.{get, give, serve_all, Kept, serve_all-Kept}
use rix_draft.Heap.{Chunk, Heap}
use rix_draft.Heap
use rix_draft.Heap.Linked.{IsHeap, insert_free_chunk, insert_free_chunk-IsHeap}
use rix_draft.Heap.Linked

-- The ring of the zones at 100 has the zone at 1000, whose free list at 1048 has the page 2000; the ring at
-- 500 has the page 2024.
abbrev links : Links
links = record {
  next = λ p.
      if p == 100
      then 1000
      else if p == 1000
      then 100
      else if p == 1048
      then 2000
      else if p == 2000
      then 1048
      else if p == 500
      then 2024
      else if p == 2024
      then 500
      else 0;
  prev = λ p.
      if p == 100
      then 1000
      else if p == 1000
      then 100
      else if p == 1048
      then 2000
      else if p == 2000
      then 1048
      else if p == 500
      then 2024
      else if p == 2024
      then 500
      else 0;
}

abbrev flags : Ptr → ℕ
flags p = if p == 2024 then 1 else 0

-- The structure at 3000 is a zone of one page that is not yet added.
abbrev memory : Memory
memory = record {
  links = links;
  base = λ a. if a == 1000 then 0x10_0000 else 0x20_0000;
  size = λ a. if a == 1000 then 8192 else 4096;
  page_array = λ a. if a == 1000 then 2000 else 0;
  free_count = λ a. if a == 1000 then 1 else 0;
  flags = flags;
}

abbrev pmm : Pmm
pmm = record {
  zone_list =
      record {
        base = 0x10_0000;
        size = 8192;
        page_array = 2000;
        free_count = 1;
        free_pages = 2000 ∷ [];
      }
      ∷ [];
  flags = flags;
  boot = record { boot_alloc_start = 5000; boot_alloc_end = 5000 };
}

memory-IsPmm : IsPmm memory 100 (1000 ∷ []) pmm
memory-IsPmm = record {
  holds = record {
    ring = record { chain = (refl, refl, (refl, refl)); once = λ p. ground arith; real = refl };
    zones = (
      record {
        base = refl;
        size = refl;
        page_array = refl;
        free_count = refl;
        free_pages = record {
          chain = (refl, refl, (refl, refl));
          once = λ p. ground arith;
          real = refl;
        };
      },
      tt,
    );
    apart = λ p. ground arith;
  };
  flags = refl;
}

out-Ring : Ring links 500 (2024 ∷ [])
out-Ring = record { chain = (refl, refl, (refl, refl)); once = λ p. ground arith; real = refl }

out-Unshared : Unshared (500 ∷ 2024 ∷ []) 100 (1000 ∷ []) pmm.zone_list
out-Unshared p = ground arith

alloc_page-IsPmm_example :
    (m' : Memory) × (alloc_page 100 2 memory
      ≡ some ((Pmm.alloc_page pmm).0, (Pmm.alloc_page pmm).1, m'))
    × IsPmm m' 100 (1000 ∷ []) (Pmm.alloc_page pmm).2
alloc_page-IsPmm_example = alloc_page-IsPmm 100 2 (1000 ∷ []) memory pmm memory-IsPmm (omega arith)

alloc_pages-Agrees_example :
    Agrees 100 500 (1000 ∷ []) (Pmm.alloc_pages 2 (2024 ∷ []) pmm) (alloc_pages 100 500 2 2 memory)
alloc_pages-Agrees_example =
    alloc_pages-Agrees 100 500 2 2 (1000 ∷ []) (2024 ∷ []) memory pmm memory-IsPmm out-Ring
      out-Unshared (omega arith)

free_pages-IsPmm_example :
    (m' : Memory) × (free_pages 100 2 2 500 memory
      ≡ some ((Pmm.Release.free_pages (2024 ∷ []) pmm).0, m'))
    × IsPmm m' 100 (1000 ∷ []) (Pmm.Release.free_pages (2024 ∷ []) pmm).1
    × Ring m'.links 500 []
free_pages-IsPmm_example =
    free_pages-IsPmm 100 2 500 (1000 ∷ []) (omega arith) 2 (2024 ∷ []) memory pmm memory-IsPmm
      out-Ring out-Unshared (omega arith)

-- The state behind the first page of the zone was taken by its address.
abbrev reserved : Pmm
reserved = record pmm {
  zone_list =
      record { base = 0x10_0000; size = 8192; page_array = 2000; free_count = 0; free_pages = [] }
      ∷ [];
  flags = mark flags 2000;
}

reserved_run :
    Pmm.Range.alloc_range 0x10_0800 1 (some (2024 ∷ [])) pmm
    ≡ some (1, some (2024 ∷ 2000 ∷ []), reserved)
unfolding Pmm.Range.alloc_range Pmm.Range.range_zones Pmm.Range.range_zone Pmm.Range.claim
    round_down
reserved_run = refl

alloc_range-IsPmm_example :
    (out' : List Ptr) × (m' : Memory) × (some (2024 ∷ 2000 ∷ []) ≡ some out')
    × (alloc_range 100 500 2 0x10_0800 1 memory ≡ some (1, m'))
    × Ring m'.links 500 out'
    × IsPmm m' 100 (1000 ∷ []) reserved
alloc_range-IsPmm_example =
    alloc_range-IsPmm 100 500 2 0x10_0800 1 (1000 ∷ []) (2024 ∷ []) memory pmm memory-IsPmm out-Ring
      out-Unshared (omega arith) 1 (some (2024 ∷ 2000 ∷ [])) reserved reserved_run

new_array : (balloc 24 pmm.boot).0 ≡ 5000
unfolding balloc round_up
new_array = refl

new_extent : written (balloc 24 pmm.boot).0 24 ≡ 48
unfolding balloc round_up
new_extent = refl

add_zone-IsPmm_example :
    (r : Pmm.Status × Pmm) × (m' : Memory) × (Pmm.add_zone 0x20_0000 4096 pmm ≡ some r)
    × (add_zone 100 3000 memory pmm.boot ≡ some (r.0, m', r.1.boot))
    × IsPmm m' 100 (1000 ∷ 3000 ∷ []) r.1
add_zone-IsPmm_example =
    add_zone-IsPmm 100 3000 (1000 ∷ []) memory pmm memory-IsPmm (omega arith) (omega arith)
      (λ p. ground arith) (omega (arith, new_array)) (omega (arith, new_array, new_extent))
      (λ p o. ground (arith, new_array, new_extent)) (λ a o. ground (arith, new_array, new_extent))

memory-Kept : Kept 100 700 (1000 ∷ []) memory (2024 ∷ [])
memory-Kept = record {
  pmm = pmm;
  holds = memory-IsPmm;
  counted = (refl, tt);
  apart = λ p. ground arith;
  real = refl;
}

serve_all-Kept_example :
    (m' : Memory) × (held' : List Ptr) × (serve_all 100 700 2
        (get ∷ get ∷ give 2024 ∷ get ∷ give 2000 ∷ [])
        memory
        (2024 ∷ [])
      ≡ some (m', held'))
    × Kept 100 700 (1000 ∷ []) m' held'
serve_all-Kept_example =
    serve_all-Kept 100 700 2 (1000 ∷ []) (omega arith) (omega arith)
      (get ∷ get ∷ give 2024 ∷ get ∷ give 2000 ∷ []) memory (2024 ∷ []) memory-Kept

-- The heap at 10 with the chunk 40, in whose memory the chunk 80 has its length.
abbrev chunk_memory : Heap.Linked.Memory
chunk_memory = record {
  links = record {
    next = λ p. if p == 10 then 40 else if p == 40 then 10 else 0;
    prev = λ p. if p == 10 then 40 else if p == 40 then 10 else 0;
  };
  len = λ p. if p == 40 then 32 else 64;
  remaining = 32;
}

abbrev heap : Heap
heap = record {
  base = 40;
  len = 200;
  remaining = 32;
  free_list = record { addr = 40; len = 32 } ∷ [];
}

insert_free_chunk-IsHeap_example :
    (m' : Heap.Linked.Memory) × (insert_free_chunk 10 2 80 chunk_memory ≡ some m')
    × IsHeap m' 10 (Heap.insert_free_chunk (record { addr = 80; len = 64 }) heap)
insert_free_chunk-IsHeap_example =
    insert_free_chunk-IsHeap 10 2 (record { addr = 80; len = 64 }) chunk_memory heap
      (record {
        ring = record { chain = (refl, refl, (refl, refl)); once = λ p. ground arith; real = refl };
        sized = (refl, tt);
        remaining = refl;
      })
      refl (omega arith) refl (omega arith)
