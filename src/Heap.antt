-- ===== src/Heap.antt =====
-- kheap.c: the free list of the kernel heap. The list is the sequence of its chunks; a chunk is the
-- address of its header with its length. `kheap_malloc` and its kin have no body in the code.
pub mod Chunks
pub mod Start
pub mod Linked
use rix_draft.Base.{
  ℕ, zero, suc, ◌+◌, ◌-◌, ◌*◌, ◌%◌, ◌^◌, Bool, true, false, Option, none, some, List, [], ◌∷◌, u64,
  sub64, ltb, ◌==◌, if◌then◌else◌,
}
use rix_draft.Align.{round_up}

pub record Chunk : Type 0 where
  pub addr : ℕ
  pub len : ℕ

pub record Heap : Type 0 where
  pub base : ℕ
  pub len : ℕ
  pub remaining : ℕ
  pub free_list : List Chunk

-- The search for a chunk at a higher address; `none` is the end of the list.
unfoldable pub insert_before : Chunk → List Chunk → Option (List Chunk)
insert_before chunk [] = none
insert_before chunk (next_chunk ∷ chunks) =
    let rest = insert_before chunk chunks in
    if ltb chunk.addr next_chunk.addr
    then some (chunk ∷ next_chunk ∷ chunks)
    else (elim rest [ none ↦ none | some chunks' ↦ some (next_chunk ∷ chunks') ])

-- `heap_insert_free_chunk`: where no chunk lies higher, the code uses `list_add`, which puts the
-- chunk first.
unfoldable pub insert_free_chunk : Chunk → Heap → Heap
insert_free_chunk chunk h = record h {
  remaining = u64 (h.remaining + chunk.len);
  free_list = elim (insert_before chunk h.free_list) [
    | none ↦ chunk ∷ h.free_list
    | some chunks ↦ chunks
  ];
}

-- `kheap_init` for the page at `ptr`, of `len` bytes, that `kpage_first_alloc` returns.
unfoldable pub kheap_init : (ptr len : ℕ) → Heap
unfolding insert_free_chunk insert_before
kheap_init ptr len =
    let unaligned = ltb 0 (ptr % 8) in
    let start = if unaligned then round_up ptr 8 else ptr in
    let room = if unaligned then sub64 len (sub64 (round_up ptr 8) ptr) else len in
    let empty : Heap = record { base = start; len = room; remaining = 0; free_list = [] } in
    if ltb 0 room then insert_free_chunk (record { addr = start; len = room }) empty else empty

-- Empty bodies; `none` is the value that is not returned.
unfoldable pub kheap_malloc : (size : ℕ) → Heap → Option ℕ × Heap
kheap_malloc size h = (none, h)

unfoldable pub kheap_calloc : (count size : ℕ) → Heap → Option ℕ × Heap
kheap_calloc count size h = (none, h)

unfoldable pub kheap_realloc : (ptr size : ℕ) → Heap → Option ℕ × Heap
kheap_realloc ptr size h = (none, h)

unfoldable pub kheap_free : (ptr : ℕ) → Heap → Heap
kheap_free ptr h = h
