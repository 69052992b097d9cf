-- ===== src/Pmm/Freeing.antt =====
-- pmm.c: what `pmm_free_pages` and `pmm_free_page` give back, and what they lose.
use rix_draft.Base.{
  ℕ, ◌+◌, ◌-◌, ◌*◌, ◌%◌, ◌^◌, ◌<◌, ◌≤◌, ◌≡◌, sym, refl, ◌↔◌, Bool, true, false, some, List, [], ◌∷◌,
  ltb, ◌==◌, if◌then◌else◌, arith, length, Bool-cases, inl, inr, bit_or,
}
use rix_draft.Base.Bits.{bit_and_step}
use rix_draft.Pmm.{
  Pmm, Zone, mark, unmark, page_at, page_belongs, page_bytes, page_size, frame_count, alloc_page,
  take_page,
}
use rix_draft.Pmm.Invariant.{Counted, total_free, free_at}
use rix_draft.Pmm.Release.{give_back, free_pages, free_page, page_to_paddr}

-- The pages of a zone that `PAGE_BELONGS_TO_ZONE` accepts are those whose offset in bytes is below
-- the number of frames, for an array that does not wrap. Of 24 pages it knows one.
pub page_belongs_iff :
    (z : Zone) (index : ℕ)
    → z.page_array + frame_count z * page_bytes < 2 ^ 64
    → index < frame_count z
    → (page_belongs (page_at z index) z ≡ true) ↔ (index * page_bytes < frame_count z)
page_belongs_iff z index fits h = ground arith

-- Giving a page back adds it to the free list of the first zone that accepts it.
pub record IsGiven (page : ℕ) (zs : List Zone) (r : Bool × List Zone) : Type 0 where
  pub counted : Counted r.1
  pub total : total_free r.1 ≡ total_free zs + (if r.0 then 1 else 0)
  pub free :
      (q : ℕ) → free_at q r.1 ≡ free_at q zs + (if r.0 then (if page == q then 1 else 0) else 0)

pub give_back-IsGiven :
    (page : ℕ) (zs : List Zone) → Counted zs → IsGiven page zs (give_back page zs)
unfolding give_back
give_back-IsGiven page [] c = record { counted = tt; total = refl; free = λ q. refl }
give_back-IsGiven page (z ∷ zs) c = elim (Bool-cases (page_belongs page z)) [
  | inl found ↦
      rw found (record {
        counted = (omega (arith, c.0), c.1);
        total = omega arith;
        free = λ q. omega arith;
      })
  | inr other ↦
      let rest = give_back-IsGiven page zs c.1 in
      rw other (record {
        counted = (c.0, rest.counted);
        total = omega (arith, rest.total);
        free = λ q. omega (arith, rest.free q);
      })
]

-- `pmm_free_pages` returns the number of pages by which the free lists have grown, at most one for
-- each page of the list, and the zones keep counting their free pages.
pub free_pages_lem :
    (pages : List ℕ) (s : Pmm)
    → Counted s.zone_list
    → (total_free (free_pages pages s).1.zone_list
        ≡ total_free s.zone_list + (free_pages pages s).0)
      × ((free_pages pages s).0 ≤ length pages)
      × Counted (free_pages pages s).1.zone_list
unfolding free_pages
free_pages_lem [] s c = (omega arith, omega arith, c)
free_pages_lem (page ∷ pages) s c =
    let given = give_back-IsGiven page s.zone_list c in
    elim (Bool-cases (give_back page s.zone_list).0) [
      | inl found ↦
          let s' : Pmm = record s {
            zone_list = (give_back page s.zone_list).1;
            flags = unmark s.flags page;
          } in
          let rest = free_pages_lem pages s' given.counted in
          let more : total_free (give_back page s.zone_list).1 ≡ total_free s.zone_list + 1 =
            rw found at (given.total) in
          rw found (omega (arith, rest, more), omega (arith, rest), rest.2)
      | inr lost ↦
          let rest = free_pages_lem pages s c in
          rw lost (omega (arith, rest), omega (arith, rest), rest.2)
    ]

-- An allocated page whose offset in bytes is not below the number of frames of its zone is lost when
-- it is freed: `pmm_free_page` reports that no page was freed and changes nothing, if its zone is the
-- only one. The page is on no free list, and the array of the zone does not wrap.
pub free_page-lost :
    (z : Zone) (index : ℕ) (s : Pmm)
    → s.zone_list ≡ z ∷ []
    → z.page_array + frame_count z * page_bytes < 2 ^ 64
    → index < frame_count z
    → free_at (page_at z index) s.zone_list ≡ 0
    → frame_count z ≤ index * page_bytes
    → free_page (page_at z index) s ≡ (0, s)
unfolding free_page give_back
free_page-lost z index s e fits h taken lost =
    let unknown : page_belongs (page_at z index) z ≡ false = ground arith in
    let nowhere : (give_back (page_at z index) s.zone_list).0 ≡ false =
      rw e (rw (unknown, give_back) refl) in
    rw nowhere refl

-- A page that its zone knows is converted to the address of its frame.
pub page_to_paddr_lem :
    (z : Zone) (zs : List Zone) (index : ℕ)
    → z.page_array + frame_count z * page_bytes < 2 ^ 64
    → z.base + z.size ≤ 2 ^ 64
    → index * page_bytes < frame_count z
    → page_to_paddr (page_at z index) (z ∷ zs) ≡ z.base + index * page_size
unfolding page_to_paddr
page_to_paddr_lem z zs index fits room h =
    let known : page_belongs (page_at z index) z ≡ true = ground arith in rw known (omega arith)

unmark-mark : (f : ℕ → ℕ) (p : ℕ) → unmark (mark f p) p p % 2 ≡ 0
unmark-mark f p =
    let same : (p == p) ≡ true = ground arith in
    rw same (ground (arith, bit_and_step (bit_or (f p) 1) 0xfe))

-- A page that its zone knows comes back: freeing what `pmm_alloc_page` took from the first zone
-- reports one page, restores the zones, and leaves the page's flag clear.
pub free_page-alloc_page :
    (z : Zone) (zs : List Zone) (ps : List ℕ) (index : ℕ) (s : Pmm)
    → s.zone_list ≡ z ∷ zs
    → z.free_pages ≡ page_at z index ∷ ps
    → z.free_count ≡ length z.free_pages
    → z.page_array + frame_count z * page_bytes < 2 ^ 64
    → index * page_bytes < frame_count z
    → ((alloc_page s).1 ≡ some (page_at z index))
      × ((free_page (page_at z index) (alloc_page s).2).0 ≡ 1)
      × ((free_page (page_at z index) (alloc_page s).2).1.zone_list ≡ s.zone_list)
      × ((free_page (page_at z index) (alloc_page s).2).1.flags (page_at z index) % 2 ≡ 0)
unfolding alloc_page take_page free_page give_back
free_page-alloc_page z zs ps index s e heads c fits known =
    let full : ltb 0 z.free_count ≡ true = ground arith in
    let taken : take_page s.zone_list ≡ (
      some (page_at z index),
      record z { free_count = z.free_count - 1; free_pages = ps } ∷ zs,
    ) =
      rw e (rw (full, heads, take_page) refl) in
    let accepted : page_belongs (page_at z index) z ≡ true = ground arith in
    let restored : z.free_count - 1 + 1 ≡ z.free_count = ground arith in
    rw (taken, accepted)
      (refl, omega arith, rw (restored, ← heads) (sym e), unmark-mark s.flags (page_at z index))
