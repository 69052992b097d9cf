-- ===== src/Platform/InUse.antt =====
-- vm.c: what `mark_pages_in_use` does to the pages of the kernel.
use rix_draft.Base.{
  ℕ, zero, suc, ◌-◌, ◌/◌, ◌≡◌, refl, sym, ◌∙◌, Option-cases, inl, inr, true, Option, none, some,
  List, ◌∷◌, bit_and, ◌==◌, arith,
}
use rix_draft.Align.{round_down}
use rix_draft.Pmm.{Pmm, Zone, page_size, page_at, address_belongs, nonfree}
use rix_draft.Pmm.Range.{Run, claim, range_zone, range_zones, alloc_range}
use rix_draft.Platform.{mark_loop}

claim-null : (page : ℕ) (z : Zone) (r : Run) → r.list ≡ none → claim page z r ≡ none
unfolding claim
claim-null page z r e = ground arith

-- Asked for one page that the first zone holds and that is free, `pmm_alloc_range` with `NULL` for
-- its list writes through `NULL`.
pub alloc_range-null :
    (pa : ℕ) (z : Zone) (zs : List Zone) (s : Pmm)
    → s.zone_list ≡ z ∷ zs
    → address_belongs (round_down pa page_size) z ≡ true
    → (bit_and (s.flags (page_at z ((round_down pa page_size - z.base) / page_size))) nonfree == 0)
      ≡ true
    → alloc_range pa 1 none s ≡ none
unfolding alloc_range range_zones range_zone
alloc_range-null pa z zs s e holds free =
    let page = page_at z ((round_down pa page_size - z.base) / page_size) in
    let run : Run = record {
      left = 1;
      address = round_down pa page_size;
      list = none;
      flags = s.flags;
    } in
    rw (e, range_zones, range_zone, holds, free, claim-null page z run refl) refl

-- The first round of `mark_pages_in_use` writes through `NULL` if the page that it finds is free and
-- lies in the first zone.
pub mark_loop-null :
    (query : ℕ → Option ℕ) (left va pa : ℕ) (z : Zone) (zs : List Zone) (s : Pmm)
    → query va ≡ some pa
    → s.zone_list ≡ z ∷ zs
    → address_belongs (round_down pa page_size) z ≡ true
    → (bit_and (s.flags (page_at z ((round_down pa page_size - z.base) / page_size))) nonfree == 0)
      ≡ true
    → mark_loop query (suc left) va s ≡ none
unfolding mark_loop
mark_loop-null query left va pa z zs s q e holds free =
    rw (mark_loop, q, alloc_range-null pa z zs s e holds free) refl

-- However many pages are to be marked, `mark_pages_in_use` looks up the first of them only.
pub mark_loop-first :
    (query query' : ℕ → Option ℕ) (left va : ℕ) (s : Pmm)
    → query va ≡ query' va
    → mark_loop query left va s ≡ mark_loop query' left va s
unfolding mark_loop
mark_loop-first query query' zero va s e = refl
mark_loop-first query query' (suc left) va s e = elim (Option-cases (query va)) [
  | inl n ↦
      let n' : query' va ≡ none = sym e ∙ n in
      rw (mark_loop, n, n') (mark_loop-first query query' left va s e)
  | inr (pa, p) ↦
      let p' : query' va ≡ some pa = sym e ∙ p in
      elim (Option-cases (alloc_range pa 1 none s)) [
        | inl f ↦ rw (mark_loop, p, p', f) refl
        | inr (r, f) ↦ rw (mark_loop, p, p', f) (mark_loop-first query query' left va r.2 e)
      ]
]
