-- ===== src/Pmm/Linked/Drain.antt =====
-- pmm.c: what the loops that move pages from the zones to a list do to the memory, and the step of one page.
use rix_draft.Base.{
  ◌+◌, ◌-◌, ◌≤◌, ◌≡◌, refl, ◌∙◌, ap, some, List, [], ◌∷◌, ◌++◌, false, count, count-append, arith,
}
use rix_draft.LinkedList.{Ptr, Links, put, list_add_tail, list_remove_head}
use rix_draft.LinkedList.Ring.{Ring, Ring-Spared}
use rix_draft.LinkedList.Insert.{Ring-list_add_tail}
use rix_draft.LinkedList.Delete.{Ring-list_remove_head}
use rix_draft.Pmm.{Zone, Drain, mark}
use rix_draft.Pmm.Linked.{Memory, free_list}
use rix_draft.Pmm.Linked.Rep.{ZoneAt, ZonesAt, free_nodes, Changed, Changed-refl}

-- What a loop does to the zones at `addrs` and to the list at `list`, which had the pages `out`, where
-- the sequences give `d`.
pub record Drains (list : Ptr) (out : List Ptr) (addrs : List Ptr) (zs : List Zone) (m : Memory)
    (d : List Zone × Drain) (m' : Memory) : Type 0 where
  pub zones : ZonesAt m' addrs d.0
  pub ring : Ring m'.links list d.1.list
  pub flags : m'.flags ≡ d.1.flags
  pub changed : Changed addrs (list ∷ out ++ free_nodes addrs zs) m m'
  pub pages :
      (p : Ptr)
      → count p d.1.list + count p (free_nodes addrs d.0)
        ≡ count p out + count p (free_nodes addrs zs)

module _ (list b : Ptr) (m : Memory) where
  -- The memory behind one page.
  abbrev pub moved_memory : (page : Ptr) → Links → Memory
  moved_memory page l = record m {
    links = l;
    free_count = put m.free_count b (m.free_count b - 1);
    flags = mark m.flags page;
  }

  -- One page goes from the zone to the list.
  pub move_page :
      (z : Zone) (out : List Ptr) (p : Ptr) (ps : List Ptr)
      → ZoneAt m b z
      → z.free_pages ≡ p ∷ ps
      → Ring m.links list out
      → ((q : Ptr) → count q (list ∷ out) + count q (free_list b ∷ z.free_pages) ≤ 1)
      → (l1 l2 : Links) × (list_remove_head (free_list b) m.links ≡ some (some p, l1))
        × (list_add_tail list p l1 ≡ some (tt, l2))
        × Drains list out
            (b ∷ [])
            (z ∷ [])
            m
            (
              record z { free_count = z.free_count - 1; free_pages = ps } ∷ [],
              record { wanted = 0; list = out ++ p ∷ []; flags = mark m.flags p; stop = false },
            )
            (moved_memory p l2)
  move_page z out p ps h e r apart =
      let pages : (q : Ptr) → count q z.free_pages ≡ count q (p ∷ ps) = λ q. ap (count q) e in
      let free : Ring m.links (free_list b) (p ∷ ps) = rw e at h.free_pages in
      let (got, l1, run1, removed) = Ring-list_remove_head m.links (free_list b) p ps free in
      let r1 : Ring l1 list out =
        Ring-Spared (free_list b ∷ p ∷ ps) m.links l1 list out
          (λ q o. ground (arith, apart q, pages q)) removed.4 r in
      let (u, l2, run2, added) =
        Ring-list_add_tail l1 list p out r1 (λ n. ground (arith, free.real, n))
          (ground (arith, apart p, pages p)) in
      let free2 : Ring l2 (free_list b) ps =
        Ring-Spared (p ∷ list ∷ out) l1 l2 (free_list b) ps
          (λ q o. ground (arith, apart q, pages q, free.once q)) added.1 removed.1 in
      (
        l1,
        l2,
        rw removed.0 at run1,
        run2,
        record {
          zones = (
            record {
              base = h.base;
              size = h.size;
              page_array = h.page_array;
              free_count = ground (arith, h.free_count);
              free_pages = free2;
            },
            tt,
          );
          ring = added.0;
          flags = refl;
          changed = record {
            links = λ q o.
                let split = count-append q out (free_list b ∷ z.free_pages ++ []) in
                let split' = count-append q z.free_pages [] in
                let first = removed.4 q (ground (arith, pages q)) in
                let second = added.1 q (ground (arith, pages q)) in
                (second.0 ∙ first.0, second.1 ∙ first.1);
            free_count = λ a o. ground arith;
            base = refl;
            size = refl;
            page_array = refl;
          };
          pages = λ q. ground (
            arith,
            pages q,
            count-append q out (p ∷ []),
            count-append q z.free_pages [],
            count-append q ps [],
          );
        },
      )

pub Drains-refl :
    (list : Ptr) (out addrs : List Ptr) (zs : List Zone) (m : Memory) (d : Drain)
    → ZonesAt m addrs zs
    → Ring m.links list out
    → m.flags ≡ d.flags
    → d.list ≡ out
    → Drains list out addrs zs m (zs, d) m
Drains-refl list out addrs zs m d h r same kept = record {
  zones = h;
  ring = rw kept r;
  flags = same;
  changed = Changed-refl addrs (list ∷ out ++ free_nodes addrs zs) m;
  pages = λ p. ap (λ (t : List Ptr). count p t + count p (free_nodes addrs zs)) kept;
}

pub Drains-trans :
    (list : Ptr) (out out1 addrs : List Ptr) (zs zs1 : List Zone) (m m1 m2 : Memory) (d1 : Drain)
    (d : List Zone × Drain)
    → d1.list ≡ out1
    → Drains list out addrs zs m (zs1, d1) m1
    → Drains list out1 addrs zs1 m1 d m2
    → Drains list out addrs zs m d m2
Drains-trans list out out1 addrs zs zs1 m m1 m2 d1 d e s t =
    let old = λ (p : Ptr). count-append p out (free_nodes addrs zs) in
    let new = λ (p : Ptr). count-append p out1 (free_nodes addrs zs1) in
    let same = λ (p : Ptr). ap (λ (l : List Ptr). count p l) e in
    record {
      zones = t.zones;
      ring = t.ring;
      flags = t.flags;
      changed = record {
        links = λ p o.
            let first = s.changed.links p o in
            let second = t.changed.links p (ground (arith, old p, new p, s.pages p, same p)) in
            (second.0 ∙ first.0, second.1 ∙ first.1);
        free_count = λ a o. t.changed.free_count a o ∙ s.changed.free_count a o;
        base = t.changed.base ∙ s.changed.base;
        size = t.changed.size ∙ s.changed.size;
        page_array = t.changed.page_array ∙ s.changed.page_array;
      };
      pages = λ p. omega (arith, s.pages p, t.pages p, same p);
    }
