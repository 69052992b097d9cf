-- ===== src/Heap/Chunks.antt =====
-- kheap.c: the order and the contents of the free list.
use rix_draft.Base.{
  ℕ, ◌+◌, ◌%◌, ◌^◌, ◌≤◌, ◌<◌, ◌≡◌, refl, ap, ◌⊎◌, inl, inr, ◌≢◌, false, none, List, [], ◌∷◌, ltb,
  arith,
}
use rix_draft.Align.Laws
use rix_draft.Heap.{Chunk, Heap, insert_before, insert_free_chunk, kheap_init}

-- Addresses rise along the list, from `low` on.
abbrev pub Rises : ℕ → List Chunk → Type 0
Rises low [] = Unit {0}
Rises low (c ∷ cs) = (low ≤ c.addr) × Rises (c.addr + 1) cs

abbrev pub HasHigher : ℕ → List Chunk → Type 0
HasHigher addr [] = ⊥
HasHigher addr (c ∷ cs) = (addr < c.addr) ⊎ HasHigher addr cs

abbrev pub NotAt : ℕ → List Chunk → Type 0
NotAt addr [] = Unit {0}
NotAt addr (c ∷ cs) = (c.addr ≢ addr) × NotAt addr cs

abbrev pub total_len : List Chunk → ℕ
total_len [] = 0
total_len (c ∷ cs) = c.len + total_len cs

insert_before-highest :
    (chunk : Chunk) (cs : List Chunk) → ¬ (HasHigher chunk.addr cs) → insert_before chunk cs ≡ none
unfolding insert_before
insert_before-highest chunk [] h = refl
insert_before-highest chunk (c ∷ cs) h =
    let behind : ltb chunk.addr c.addr ≡ false =
      ground (arith, λ (p : chunk.addr < c.addr). h (inl p)) in
    rw (behind, insert_before-highest chunk cs (λ p. h (inr p))) refl

-- A chunk that lies higher than all others is put first, so that the addresses of a free list that
-- is not empty do not rise any more.
pub insert_free_chunk-highest :
    (chunk c : Chunk) (cs : List Chunk) (h : Heap)
    → h.free_list ≡ c ∷ cs
    → ¬ (HasHigher chunk.addr (c ∷ cs))
    → ((insert_free_chunk chunk h).free_list ≡ chunk ∷ c ∷ cs)
      × ¬ (Rises 0 (insert_free_chunk chunk h).free_list)
unfolding insert_free_chunk
insert_free_chunk-highest chunk c cs h e highest =
    let first : (insert_free_chunk chunk h).free_list ≡ chunk ∷ c ∷ cs =
      rw (insert_free_chunk, e, insert_before-highest chunk (c ∷ cs) highest)
        (ap (λ t. chunk ∷ t) e) in
    rw first (refl, λ r. highest (inl (omega (arith, r))))

-- `kheap_init` makes one free chunk of the whole page, from the first multiple of 8 on, and counts
-- its bytes.
pub kheap_init_lem :
    (ptr len : ℕ)
    → ptr + len + 8 ≤ 2 ^ 64
    → 8 ≤ len
    → ((kheap_init ptr len).base % 8 ≡ 0)
      × (ptr ≤ (kheap_init ptr len).base)
      × ((kheap_init ptr len).base + (kheap_init ptr len).len ≡ ptr + len)
      × ((kheap_init ptr len).remaining ≡ (kheap_init ptr len).len)
      × ((kheap_init ptr len).free_list
          ≡ record { addr = (kheap_init ptr len).base; len = (kheap_init ptr len).len } ∷ [])
unfolding kheap_init
kheap_init_lem ptr len fits long =
    ground (arith, Laws.round_bounds 3 61 (omega arith) ptr (omega arith))
