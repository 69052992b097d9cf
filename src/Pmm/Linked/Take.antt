-- ===== src/Pmm/Linked/Take.antt =====
-- pmm.c: the page that `pmm_alloc_page` takes off the free list of a zone, in memory.
use rix_draft.Base.{◌-◌, ◌≡◌, refl, ap, none, some, List, [], ◌∷◌, true, ◌==◌, arith, ==_ne}
use rix_draft.LinkedList.{Ptr, null, Links, put, stepping, list_remove_head}
use rix_draft.LinkedList.Ring.{Ring, ne_null}
use rix_draft.LinkedList.Delete.{Ring-list_remove_head}
use rix_draft.Pmm.{Zone, mark}
use rix_draft.Pmm.Linked.{Memory, free_list, on_links, claim_page}
use rix_draft.Pmm.Linked.Rep.{ZoneAt, Changed, on_links-run}

-- Nothing is removed of an empty ring.
pub Ring-list_remove_head_nil :
    (m : Links) (head : Ptr) → Ring m head [] → list_remove_head head m ≡ some (none, m)
unfolding list_remove_head
Ring-list_remove_head_nil m head r =
    let real = ne_null m head [] r head (ground arith) in
    let self : (head == head) ≡ true = ground arith in
    simp (list_remove_head, stepping, ==_ne head null real, r.chain.0, self)

module _ (m : Memory) (a : Ptr) (z : Zone) where
  -- The memory behind the removal of a page of the zone, with the new links.
  taken_memory : (page : Ptr) → Links → Memory
  taken_memory page l = record m {
    links = l;
    free_count = put m.free_count a (m.free_count a - 1);
    flags = mark m.flags page;
  }

  -- One zone with a page to give.
  pub claim_page_lem :
      (p : Ptr) (ps : List Ptr)
      → ZoneAt m a z
      → z.free_pages ≡ p ∷ ps
      → (m' : Memory) × (claim_page a (on_links (list_remove_head (free_list a)) m)
          ≡ some (some p, m'))
        × ZoneAt m' a (record z { free_count = z.free_count - 1; free_pages = ps })
        × (m'.flags ≡ mark m.flags p)
        × Changed (a ∷ []) (free_list a ∷ p ∷ ps) m m'
        × (m'.links.next p ≡ null)
        × (m'.links.prev p ≡ null)
  unfolding taken_memory
  claim_page_lem p ps h e =
      let ring : Ring m.links (free_list a) (p ∷ ps) = rw e at h.free_pages in
      let (got, l, run, removed) = Ring-list_remove_head m.links (free_list a) p ps ring in
      (
        taken_memory p l,
        ap (claim_page a)
            (on_links-run (list_remove_head (free_list a)) m (some p) l (rw removed.0 at run)),
        record {
          base = h.base;
          size = h.size;
          page_array = h.page_array;
          free_count = ground (arith, h.free_count);
          free_pages = removed.1;
        },
        refl,
        record {
          links = removed.4;
          free_count = λ b out. ground arith;
          base = refl;
          size = refl;
          page_array = refl;
        },
        removed.2,
        removed.3,
      )
