-- ===== src/Heap/Linked.antt =====
-- kheap.c over the links of list.h: a chunk is a structure at its address, with its node first and its
-- length behind, and the free list is what the links say.
use mathlib.Core.Path.{subst}
use mathlib.Core.List.{append-nil, append_assoc}
use rix_draft.Base.{
  ℕ, zero, suc, ◌+◌, ◌<◌, ◌≡◌, ◌≢◌, refl, ap, sym, ◌∙◌, Option, Option-cases, none, some, inl, inr,
  true, false, Bool-cases, List, [], ◌∷◌, ◌++◌, map, u64, ltb, ◌==◌, if◌then◌else◌, count,
  count-append, length, arith,
}
use rix_draft.LinkedList.{Ptr, null, Links, Cmd, list_add, list_add_tail}
use rix_draft.LinkedList.Ring.{Chain, Ring, Ring-rotate, Ends}
use rix_draft.LinkedList.Insert.{Ring-list_add, Ring-list_add_tail}
use rix_draft.Heap.{Chunk, Heap, insert_before}
use rix_draft.Heap

-- The links of all nodes, the lengths of the chunks, and `remaining`.
pub record Memory : Type 0 where
  pub links : Links
  pub len : Ptr → ℕ
  pub remaining : ℕ

-- The search of `heap_insert_free_chunk` from a node on, with `list_add` behind its end.
unfoldable pub insert_from : (head : Ptr) (fuel : ℕ) (chunk node : Ptr) → Cmd (Unit {0})
unfolding list_add list_add_tail
insert_from head zero chunk node m = none
insert_from head (suc fuel) chunk node m =
    let rest = if node == null then none else insert_from head fuel chunk (m.next node) m in
    if node == head
    then list_add head chunk m
    else if ltb chunk node
    then list_add_tail node chunk m
    else rest

unfoldable pub insert_free_chunk : (head : Ptr) (fuel : ℕ) (chunk : Ptr) → Memory → Option Memory
unfolding insert_from
insert_free_chunk head fuel chunk m =
    let remaining = u64 (m.remaining + m.len chunk) in
    elim (insert_from head fuel chunk (m.links.next head) m.links) [
      | none ↦ none
      | some (u, l) ↦ some (record m { links = l; remaining = remaining })
    ]

-- The addresses of the chunks.
abbrev pub nodes : List Chunk → List Ptr
nodes cs = map (λ c. c.addr) cs

-- The chunks have their lengths.
abbrev pub Sized : (Ptr → ℕ) → List Chunk → Type 0
Sized len [] = Unit {0}
Sized len (c ∷ cs) = (len c.addr ≡ c.len) × Sized len cs

-- A memory that holds the heap, with the free list in the ring of `head`.
pub record IsHeap (m : Memory) (head : Ptr) (h : Heap) : Type 0 where
  pub ring : Ring m.links head (nodes h.free_list)
  pub sized : Sized m.len h.free_list
  pub remaining : m.remaining ≡ h.remaining

-- `list_add_tail` at a node of a ring puts the new one before it.
Ring-list_add_before :
    (m : Links) (head new_entry x : Ptr) (pre post : List Ptr)
    → Ring m head (pre ++ x ∷ post)
    → new_entry ≢ null
    → count new_entry (head ∷ pre ++ x ∷ post) ≡ 0
    → Ends (list_add_tail x new_entry m) λ _ m'. Ring m' head (pre ++ new_entry ∷ x ∷ post)
Ring-list_add_before m head new_entry x pre post r real fresh =
    let at_x : Ring m x (post ++ head ∷ pre) = Ring-rotate m head pre x post r in
    let (u, m', run, added) = Ring-list_add_tail m x new_entry (post ++ head ∷ pre) at_x real (
      omega (
        arith,
        fresh,
        count-append new_entry pre (x ∷ post),
        count-append new_entry post (head ∷ pre),
      )) in
    let around : Ring m' x (post ++ head ∷ (pre ++ new_entry ∷ [])) =
      subst (Ring m' x) (append_assoc post (head ∷ pre) (new_entry ∷ [])) added.0 in
    let back : Ring m' head ((pre ++ new_entry ∷ []) ++ x ∷ post) =
      Ring-rotate m' x post head (pre ++ new_entry ∷ []) around in
    (u, m', run, rw append_assoc at back)

insert_from-go :
    (head : Ptr) (fuel : ℕ) (chunk node : Ptr) (m : Links)
    → (node == head) ≡ false
    → ltb chunk node ≡ false
    → (node == null) ≡ false
    → insert_from head (suc fuel) chunk node m ≡ insert_from head fuel chunk (m.next node) m
unfolding insert_from
insert_from-go head fuel chunk node m other behind real = rw (insert_from, other, behind, real) refl

module _ (head : Ptr) (chunk : Chunk) (m : Links) where
  -- The list behind the search, where the nodes `pre` lie before it.
  abbrev placed : (pre : List Ptr) (cs : List Chunk) → Option (List Chunk) → List Ptr
  placed pre cs none = chunk.addr ∷ pre ++ nodes cs
  placed pre cs (some cs') = pre ++ nodes cs'

  abbrev behind : Chunk → Option (List Chunk) → Option (List Chunk)
  behind x none = none
  behind x (some cs') = some (x ∷ cs')

  placed-cons :
      (pre : List Ptr) (x : Chunk) (cs : List Chunk) (o : Option (List Chunk))
      → placed (pre ++ x.addr ∷ []) cs o ≡ placed pre (x ∷ cs) (behind x o)
  placed-cons pre x cs none = ap (λ l. chunk.addr ∷ l) (append_assoc pre (x.addr ∷ []) (nodes cs))
  placed-cons pre x cs (some cs') = append_assoc pre (x.addr ∷ []) (nodes cs')

  insert_before-behind :
      (x : Chunk) (cs : List Chunk)
      → ltb chunk.addr x.addr ≡ false
      → insert_before chunk (x ∷ cs) ≡ behind x (insert_before chunk cs)
  unfolding insert_before
  insert_before-behind x cs e = elim (Option-cases (insert_before chunk cs)) [
    | inl n ↦ rw (insert_before, e, n) refl
    | inr (cs', n) ↦ rw (insert_before, e, n) refl
  ]

  insert_from-Ring :
      (fuel : ℕ) (node : Ptr) (pre : List Ptr) (cs : List Chunk)
      → Ring m head (pre ++ nodes cs)
      → Chain m node (nodes cs) head
      → chunk.addr ≢ null
      → count chunk.addr (head ∷ pre ++ nodes cs) ≡ 0
      → length cs < fuel
      → Ends
          (insert_from head fuel chunk.addr (m.next node) m)
          λ _ m'. Ring m' head (placed pre cs (insert_before chunk cs))
  insert_from-Ring zero node pre cs r c real fresh f = absurd (omega arith)
  insert_from-Ring (suc fuel) node pre [] r c real fresh f =
      let found : (head == head) ≡ true = ground arith in
      let whole : Ring m head pre = rw append-nil at r in
      let (u, m', run, added) =
        Ring-list_add m head chunk.addr pre whole real
          (ground (arith, fresh, count-append chunk.addr pre [])) in
      (
        u,
        m',
        (unfold insert_from in rw (c.0, insert_from, found) run),
        (unfold insert_before in rw append-nil added.0),
      )
  insert_from-Ring (suc fuel) node pre (x ∷ cs) r c real fresh f =
      let split = λ (p : Ptr). count-append p pre (x.addr ∷ nodes cs) in
      let other : (x.addr == head) ≡ false = ground (arith, r.once x.addr, split x.addr) in
      let real_x : (x.addr == null) ≡ false = ground (arith, r.real, split x.addr) in
      elim (Bool-cases (ltb chunk.addr x.addr)) [
        | inl here ↦
            let (u, m', run, added) =
              Ring-list_add_before m head chunk.addr x.addr pre (nodes cs) r real fresh in
            (
              u,
              m',
              (unfold insert_from in rw (c.0, insert_from, other, here) run),
              (unfold insert_before in rw here added),
            )
        | inr behind_x ↦
            let tail : Ring m head ((pre ++ x.addr ∷ []) ++ nodes cs) =
              subst (Ring m head) (sym (append_assoc pre (x.addr ∷ []) (nodes cs))) r in
            let (u, m', run, ring) =
              insert_from-Ring fuel x.addr (pre ++ x.addr ∷ []) cs tail c.2 real
                (ground (
                  arith,
                  fresh,
                  split chunk.addr,
                  count-append chunk.addr (pre ++ x.addr ∷ []) (nodes cs),
                  count-append chunk.addr pre (x.addr ∷ []),
                ))
                (omega arith) in
            (
              u,
              m',
              rw c.0 (insert_from-go head fuel chunk.addr x.addr m other behind_x real_x ∙ run),
              rw (insert_before-behind x cs behind_x)
                  (subst (Ring m' head) (placed-cons pre x cs (insert_before chunk cs)) ring),
            )
      ]

abbrev SizedOption : (Ptr → ℕ) → Option (List Chunk) → Type 0
SizedOption len none = Unit {0}
SizedOption len (some cs) = Sized len cs

insert_before-Sized :
    (len : Ptr → ℕ) (chunk : Chunk) (cs : List Chunk)
    → len chunk.addr ≡ chunk.len
    → Sized len cs
    → SizedOption len (insert_before chunk cs)
unfolding insert_before
insert_before-Sized len chunk [] e h = tt
insert_before-Sized len chunk (x ∷ cs) e h = elim (Bool-cases (ltb chunk.addr x.addr)) [
  | inl here ↦ rw here (e, h)
  | inr behind_x ↦
      let rest = insert_before-Sized len chunk cs e h.1 in
      elim (Option-cases (insert_before chunk cs)) [
        | inl n ↦ rw (behind_x, n) tt
        | inr (cs', n) ↦ let rest' : Sized len cs' = rw n at rest in rw (behind_x, n) (h.0, rest')
      ]
]

-- `heap_insert_free_chunk`, run on the links of a memory that holds the heap, meets no fault and does
-- what it does on sequences, for a chunk that has its length in memory, is not `NULL` and is not in
-- the list: the memory holds the new heap. The fuel is one round more than there are chunks.
pub insert_free_chunk-IsHeap :
    (head : Ptr) (fuel : ℕ) (chunk : Chunk) (m : Memory) (h : Heap)
    → IsHeap m head h
    → m.len chunk.addr ≡ chunk.len
    → chunk.addr ≢ null
    → count chunk.addr (head ∷ nodes h.free_list) ≡ 0
    → length h.free_list < fuel
    → (m' : Memory) × (insert_free_chunk head fuel chunk.addr m ≡ some m')
      × IsHeap m' head (Heap.insert_free_chunk chunk h)
insert_free_chunk-IsHeap head fuel chunk m h k sized real fresh f =
    let (u, l, run, ring) =
      insert_from-Ring head chunk m.links fuel head [] h.free_list k.ring k.ring.chain real fresh
        f in
    let m' : Memory = record m { links = l; remaining = u64 (m.remaining + m.len chunk.addr) } in
    let done : insert_free_chunk head fuel chunk.addr m ≡ some m' =
      unfold insert_free_chunk in rw (insert_free_chunk, run) refl in
    let sum : u64 (m.remaining + m.len chunk.addr) ≡ u64 (h.remaining + chunk.len) =
      λ i. u64 (k.remaining i + sized i) in
    let lens = insert_before-Sized m.len chunk h.free_list sized k.sized in
    elim (Option-cases (insert_before chunk h.free_list)) [
      | inl n ↦
          let ring' : Ring l head (chunk.addr ∷ nodes h.free_list) = rw n at ring in
          (
            m',
            done,
            (unfold Heap.insert_free_chunk in
                rw n (record { ring = ring'; sized = (sized, k.sized); remaining = sum })),
          )
      | inr (cs', n) ↦
          let ring' : Ring l head (nodes cs') = rw n at ring in
          let lens' : Sized m.len cs' = rw n at lens in
          (
            m',
            done,
            (unfold Heap.insert_free_chunk in
                rw n (record { ring = ring'; sized = lens'; remaining = sum })),
          )
    ]
