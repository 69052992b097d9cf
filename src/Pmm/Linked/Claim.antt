-- ===== src/Pmm/Linked/Claim.antt =====
-- pmm.c: `pmm_alloc_range`, in memory and on sequences.
use mathlib.Core.Path.{subst}
use rix_draft.Base.{
  ℕ, zero, suc, ◌+◌, ◌-◌, ◌*◌, ◌/◌, ◌≤◌, ◌≡◌, refl, sym, ◌∙◌, ap, Option, none, some, List, [], ◌∷◌,
  ◌++◌, Bool, true, false, ◌&&◌, inl, inr, Bool-cases, bit_and, leb, u64, ◌==◌, count, count-append,
  unlink, count-unlink, arith,
}
use rix_draft.LinkedList.{Ptr, Links, list_delete, list_add_tail}
use rix_draft.LinkedList.Ring.{Ring}
use rix_draft.Pmm.{Zone, Pmm, Drain, page_size, page_bytes, page_at, nonfree, mark, decrement}
use rix_draft.Pmm
use rix_draft.Pmm.Range.{Run, claim, range_zone}
use rix_draft.Pmm.Linked.{Memory, free_list}
use rix_draft.Pmm.Linked.Rep.{ZoneAt, on_links-run}
use rix_draft.Pmm.Linked.Drain.{Drains, Drains-refl, Drains-trans}
use rix_draft.Pmm.Linked.Range.{
  address_belongs, page_of, range_at, unlink-parts, pick_page, ranged_memory,
}

-- The run as the state of a loop, with its list.
abbrev pub state_of : Run → List Ptr → Drain
state_of r out = record { wanted = r.left; list = out; flags = r.flags; stop = false }

-- What the loop at one zone does, where it meets no fault on sequences.
abbrev pub RangesAt :
    (list b : Ptr) (out : List Ptr) (z : Zone) (m : Memory)
    → Option (Zone × Run)
    → Option (ℕ × ℕ × Memory)
    → Type 0
RangesAt list b out z m none o = Unit {0}
RangesAt list b out z m (some (z', r')) o =
    (out' : List Ptr) × (m' : Memory) × (r'.list ≡ some out')
    × (o ≡ some (r'.left, r'.address, m'))
    × Drains list out (b ∷ []) (z ∷ []) m (z' ∷ [], state_of r' out') m'

module _ (left : ℕ) (z : Zone) (r : Run) where
  abbrev here : Ptr
  here = page_at z ((r.address - z.base) / page_size)

  abbrev is_free : Bool
  is_free = bit_and (r.flags here) nonfree == 0

  range_zone-far : Pmm.address_belongs r.address z ≡ false → range_zone (suc left) z r ≡ some (z, r)
  unfolding range_zone
  range_zone-far e = rw (range_zone, e) refl

  range_zone-taken :
      Pmm.address_belongs r.address z ≡ true
      → is_free ≡ false
      → range_zone (suc left) z r ≡ some (z, r)
  unfolding range_zone
  range_zone-taken e f = rw (range_zone, e, f) refl

  range_zone-lost :
      Pmm.address_belongs r.address z ≡ true
      → is_free ≡ true
      → (count here z.free_pages == 0) ≡ true
      → range_zone (suc left) z r ≡ none
  unfolding range_zone claim
  range_zone-lost e f g = rw (range_zone, e, f, claim, g) refl

  abbrev after : List Ptr → Run
  after out = record {
    left = r.left - 1;
    address = u64 (r.address + page_size);
    list = some (out ++ here ∷ []);
    flags = mark r.flags here;
  }

  range_zone-page :
      (out : List Ptr)
      → Pmm.address_belongs r.address z ≡ true
      → is_free ≡ true
      → (count here z.free_pages == 0) ≡ false
      → r.list ≡ some out
      → range_zone (suc left) z r
        ≡ range_zone left
            (record z {
              free_count = decrement z.free_count;
              free_pages = unlink here z.free_pages;
            })
            (after out)
  unfolding range_zone claim
  range_zone-page out e f g l = rw (range_zone, e, f, claim, g, l) refl

module _ (list b : Ptr) (left address : ℕ) (m : Memory) where
  range_at-far :
      address_belongs address b m ≡ false
      → range_at b list (suc left) address m ≡ some (suc left, address, m)
  unfolding range_at
  range_at-far e = rw (range_at, e) refl

  range_at-taken :
      address_belongs address b m ≡ true
      → (bit_and (m.flags (page_of address b m)) nonfree == 0) ≡ false
      → range_at b list (suc left) address m ≡ some (suc left, address, m)
  unfolding range_at
  range_at-taken e f = rw (range_at, e, f) refl

  range_at-page :
      (l1 l2 : Links)
      → address_belongs address b m ≡ true
      → (bit_and (m.flags (page_of address b m)) nonfree == 0) ≡ true
      → list_delete (page_of address b m) m.links ≡ some (tt, l1)
      → list_add_tail list (page_of address b m) l1 ≡ some (tt, l2)
      → range_at b list (suc left) address m
        ≡ range_at b list left
            (u64 (address + page_size))
            (ranged_memory list b m (page_of address b m) l2)
  unfolding range_at
  range_at-page l1 l2 e f run1 run2 =
      let page = page_of address b m in
      let cut = on_links-run (list_delete page) m tt l1 run1 in
      let joined =
        on_links-run (list_add_tail list page) (record m { links = l1; flags = mark m.flags page })
          tt l2 run2 in
      rw (range_at, e, f, cut, joined) refl

RangesAt-trans :
    (list b : Ptr) (out out1 : List Ptr) (z z1 : Zone) (m m1 : Memory) (d1 : Drain)
    → d1.list ≡ out1
    → Drains list out (b ∷ []) (z ∷ []) m (z1 ∷ [], d1) m1
    → (o : Option (Zone × Run)) (k : Option (ℕ × ℕ × Memory)) → RangesAt list b out1 z1 m1 o k
    → RangesAt list b out z m o k
RangesAt-trans list b out out1 z z1 m m1 d1 e s none k t = tt
RangesAt-trans list b out out1 z z1 m m1 d1 e s (some (z', r')) k (out', m', l, run, t) = (
  out',
  m',
  l,
  run,
  Drains-trans list out out1 (b ∷ []) (z ∷ []) (z1 ∷ []) m m1 m' d1 (z' ∷ [], state_of r' out') e s
      t,
)

-- One zone.
pub range_at-RangesAt :
    (list b : Ptr) (left : ℕ) (z : Zone) (out : List Ptr) (r : Run) (m : Memory)
    → r.left ≡ left
    → r.list ≡ some out
    → m.flags ≡ r.flags
    → ZoneAt m b z
    → Ring m.links list out
    → ((q : Ptr) → count q (list ∷ out) + count q (free_list b ∷ z.free_pages) ≤ 1)
    → RangesAt list b out z m (range_zone left z r) (range_at b list left r.address m)
range_at-RangesAt list b zero z out r m more listed same h ring apart =
    unfold range_zone range_at in
    (
      out,
      m,
      listed,
      (λ i. some (sym more i, r.address, m)),
      Drains-refl list out (b ∷ []) (z ∷ []) m (state_of r out) (h, tt) ring same refl,
    )
range_at-RangesAt list b (suc left) z out r m more listed same h ring apart =
    let belongs : address_belongs r.address b m ≡ Pmm.address_belongs r.address z = λ i.
      leb (h.base i) r.address
      && leb r.address (u64 (h.base i + h.size i + 0xffff_ffff_ffff_ffff)) in
    let page : page_of r.address b m ≡ here left z r =
      λ i. h.page_array i + (r.address - h.base i) / page_size * page_bytes in
    let free : (bit_and (m.flags (page_of r.address b m)) nonfree == 0) ≡ is_free left z r =
      λ i. bit_and (same i (page i)) nonfree == 0 in
    let stays : RangesAt list b out z m (some (z, r)) (some (suc left, r.address, m)) = (
      out,
      m,
      listed,
      (λ i. some (sym more i, r.address, m)),
      Drains-refl list out (b ∷ []) (z ∷ []) m (state_of r out) (h, tt) ring same refl,
    ) in
    elim (Bool-cases (Pmm.address_belongs r.address z)) [
      | inr far ↦
          rw (range_zone-far left z r far, range_at-far list b left r.address m (belongs ∙ far))
            stays
      | inl near ↦ elim (Bool-cases (is_free left z r)) [
        | inr taken ↦
            rw
              (
                range_zone-taken left z r near taken,
                range_at-taken list b left r.address m (belongs ∙ near) (free ∙ taken),
              )
              stays
        | inl is_here ↦ elim (Bool-cases (count (here left z r) z.free_pages == 0)) [
          | inl lost ↦ rw (range_zone-lost left z r near is_here lost) tt
          | inr found ↦
              let p = here left z r in
              let once : 1 ≤ count p z.free_pages = ground (arith, found) in
              let (pre, post, whole, cut) = unlink-parts p z.free_pages once in
              let (l1, l2, run1, run2, picked) =
                pick_page list b m z out p pre post left h whole ring apart in
              let d1 : Drain = record {
                wanted = left;
                list = out ++ p ∷ [];
                flags = mark m.flags p;
                stop = false;
              } in
              let m1 = ranged_memory list b m p l2 in
              let z1 : Zone = record z {
                free_count = decrement z.free_count;
                free_pages = unlink p z.free_pages;
              } in
              let moved : Drains list out (b ∷ []) (z ∷ []) m (z1 ∷ [], d1) m1 =
                subst
                  (λ (l : List Ptr).
                    Drains list out (b ∷ []) (z ∷ []) m
                      (record z { free_count = decrement z.free_count; free_pages = l } ∷ [], d1)
                      m1)
                  (sym cut) picked in
              let rest =
                range_at-RangesAt list b left z1 (out ++ p ∷ []) (after left z r out) m1
                  (omega (arith, more)) refl (moved.flags ∙ ap (λ (f : Ptr → ℕ). mark f p) same)
                  moved.zones.0 moved.ring
                  (λ q. ground (
                    arith,
                    apart q,
                    count-append q out (p ∷ []),
                    count-unlink p q z.free_pages once,
                  )) in
              let step =
                range_at-page list b left r.address m l1 l2 (belongs ∙ near) (free ∙ is_here)
                  (ap (λ (q : Ptr). list_delete q m.links) page ∙ run1)
                  (ap (λ (q : Ptr). list_add_tail list q l1) page ∙ run2)
                ∙ ap
                    (λ (q : Ptr).
                      range_at b list left (u64 (r.address + page_size))
                        (ranged_memory list b m q l2))
                    page in
              rw (range_zone-page left z r out near is_here found listed, step)
                (RangesAt-trans list b out (out ++ p ∷ []) z z1 m m1 d1 refl moved _ _ rest)
        ]
      ]
    ]
