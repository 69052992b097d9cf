-- ===== src/Pmm/Linked/Range.antt =====
-- pmm.c: `pmm_alloc_range` in memory, and the page that it takes from the middle of a free list.
use rix_draft.Base.{
  ℕ, zero, suc, ◌+◌, ◌-◌, ◌*◌, ◌/◌, ◌≤◌, ◌≡◌, refl, ◌∙◌, ap, Option, none, some, List, [], ◌∷◌,
  ◌++◌, Bool, true, false, ◌&&◌, inl, inr, Bool-cases, bit_and, leb, u64, ◌==◌, if◌then◌else◌,
  count, count-append, unlink, arith,
}
use rix_draft.Align.{round_down}
use rix_draft.LinkedList.{Ptr, null, Links, put, list_delete, list_add_tail}
use rix_draft.LinkedList.Ring.{Ring, Ring-Spared}
use rix_draft.LinkedList.Insert.{Ring-list_add_tail}
use rix_draft.LinkedList.Delete.{Ring-list_delete}
use rix_draft.Pmm.{Zone, page_size, page_bytes, nonfree, mark, decrement}
use rix_draft.Pmm.Linked.{Memory, free_list, on_links}
use rix_draft.Pmm.Linked.Rep.{ZoneAt}
use rix_draft.Pmm.Linked.Drain.{Drains}

-- `ADDRESS_BELONGS_TO_ZONE`
abbrev pub address_belongs : (addr zone : Ptr) → Memory → Bool
address_belongs addr zone m =
    leb (m.base zone) addr && leb addr (u64 (m.base zone + m.size zone + 0xffff_ffff_ffff_ffff))

-- `&zone->page_array[(address - zone->base) / PAGE_SIZE]`
abbrev pub page_of : (addr zone : Ptr) → Memory → Ptr
page_of addr zone m = m.page_array zone + (addr - m.base zone) / page_size * page_bytes

-- The inner `while` at a zone, with `left` pages to go: those that still are, and the next address.
unfoldable pub range_at : (zone list : Ptr) (left address : ℕ) → Memory → Option (ℕ × ℕ × Memory)
unfolding list_delete list_add_tail
range_at zone list zero address m = some (0, address, m)
range_at zone list (suc left) address m = elim (address_belongs address zone m) [
  | false ↦ some (suc left, address, m)
  | true ↦ elim (bit_and (m.flags (page_of address zone m)) nonfree == 0) [
    | false ↦ some (suc left, address, m)
    | true ↦ elim (on_links (list_delete (page_of address zone m)) m) [
      | none ↦ none
      | some (u, m1) ↦
          elim (on_links (list_add_tail list (page_of address zone m))
            (record m1 { flags = mark m1.flags (page_of address zone m) })) [
              | none ↦ none
              | some (v, m2) ↦ range_at zone list left (u64 (address + page_size)) (record m2 {
                free_count = put m2.free_count zone (decrement (m2.free_count zone));
              })
            ]
    ]
  ]
]

-- The walk over the zones, from a node on.
unfoldable pub range_from :
    (head list : Ptr) (fuel left address : ℕ) (node : Ptr) → Memory → Option (ℕ × ℕ × Memory)
unfolding range_at
range_from head list zero left address node m = none
range_from head list (suc fuel) left address node m =
    if node == head then some (left, address, m) else (elim (range_at node list left address m) [
      | none ↦ none
      | some (left', address', m1) ↦
          let rest =
            if node == null
            then none
            else range_from head list fuel left' address' (m1.links.next node) m1 in
          if left' == 0 then some (left', address', m1) else rest
    ])

-- `pmm_alloc_range`: how many pages it takes.
unfoldable pub alloc_range :
    (head list : Ptr) (fuel address wanted : ℕ) → Memory → Option (ℕ × Memory)
unfolding range_from
alloc_range head list fuel address wanted m =
    if wanted == 0
    then some (0, m)
    else (elim (range_from head list fuel wanted (round_down address page_size) (m.links.next head)
        m) [ none ↦ none | some (left, next, m') ↦ some (wanted - left, m') ])

-- A page that is counted in a list stands between two parts of it.
pub unlink-parts :
    (p : Ptr) (xs : List Ptr)
    → 1 ≤ count p xs
    → (pre post : List Ptr) × (xs ≡ pre ++ p ∷ post) × (unlink p xs ≡ pre ++ post)
unlink-parts p [] h = absurd (omega arith)
unlink-parts p (x ∷ xs) h = elim (Bool-cases (x == p)) [
  | inl here ↦ ([], xs, ap (λ (q : Ptr). q ∷ xs) (ground arith), rw here refl)
  | inr other ↦
      let (pre, post, whole, cut) = unlink-parts p xs (ground arith) in
      (x ∷ pre, post, ap (λ l. x ∷ l) whole, rw other (ap (λ l. x ∷ l) cut))
]

module _ (list b : Ptr) (m : Memory) where
  -- The memory behind one page.
  abbrev pub ranged_memory : (page : Ptr) → Links → Memory
  ranged_memory page l = record m {
    links = l;
    flags = mark m.flags page;
    free_count = put m.free_count b (decrement (m.free_count b));
  }

  -- One page goes from the middle of the free list to the list.
  pub pick_page :
      (z : Zone) (out : List Ptr) (p : Ptr) (pre post : List Ptr) (left : ℕ)
      → ZoneAt m b z
      → z.free_pages ≡ pre ++ p ∷ post
      → Ring m.links list out
      → ((q : Ptr) → count q (list ∷ out) + count q (free_list b ∷ z.free_pages) ≤ 1)
      → (l1 l2 : Links) × (list_delete p m.links ≡ some (tt, l1))
        × (list_add_tail list p l1 ≡ some (tt, l2))
        × Drains list out
            (b ∷ [])
            (z ∷ [])
            m
            (
              record z { free_count = decrement z.free_count; free_pages = pre ++ post } ∷ [],
              record { wanted = left; list = out ++ p ∷ []; flags = mark m.flags p; stop = false },
            )
            (ranged_memory p l2)
  pick_page z out p pre post left h e r apart =
      let pages : (q : Ptr) → count q z.free_pages ≡ count q (pre ++ p ∷ post) =
        λ q. ap (count q) e in
      let split = λ (q : Ptr). count-append q pre (p ∷ post) in
      let rest = λ (q : Ptr). count-append q pre post in
      let free : Ring m.links (free_list b) (pre ++ p ∷ post) = rw e at h.free_pages in
      let (u, l1, run1, removed) = Ring-list_delete m.links (free_list b) pre p post free in
      let r1 : Ring l1 list out =
        Ring-Spared (free_list b ∷ pre ++ p ∷ post) m.links l1 list out
          (λ q o. ground (arith, apart q, pages q)) removed.3 r in
      let (v, l2, run2, added) =
        Ring-list_add_tail l1 list p out r1
          (λ n.
            let real = ap (λ (q : Ptr). count q (pre ++ p ∷ post)) n in
            ground (arith, free.real, split p, real))
          (ground (arith, apart p, pages p, split p)) in
      let free2 : Ring l2 (free_list b) (pre ++ post) =
        Ring-Spared (p ∷ list ∷ out) l1 l2 (free_list b) (pre ++ post)
          (λ q o. ground (arith, apart q, pages q, split q, rest q, free.once q)) added.1
          removed.0 in
      (
        l1,
        l2,
        run1,
        run2,
        record {
          zones = (
            record {
              base = h.base;
              size = h.size;
              page_array = h.page_array;
              free_count = ground (arith, h.free_count);
              free_pages = free2;
            },
            tt,
          );
          ring = added.0;
          flags = refl;
          changed = record {
            links = λ q o.
                let whole = count-append q out (free_list b ∷ z.free_pages ++ []) in
                let end = count-append q z.free_pages [] in
                let first = removed.3 q (ground (arith, pages q, whole, end)) in
                let second = added.1 q (ground (arith, pages q, split q, whole, end)) in
                (second.0 ∙ first.0, second.1 ∙ first.1);
            free_count = λ a o. ground arith;
            base = refl;
            size = refl;
            page_array = refl;
          };
          pages = λ q. ground (
            arith,
            pages q,
            split q,
            rest q,
            count-append q out (p ∷ []),
            count-append q z.free_pages [],
            count-append q (pre ++ post) [],
          );
        },
      )
