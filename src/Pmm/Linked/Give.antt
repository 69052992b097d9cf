-- ===== src/Pmm/Linked/Give.antt =====
-- pmm.c: the search of `pmm_free_pages` for the zone of a page, on the links.
use rix_draft.Base.{
  ℕ, zero, suc, ◌+◌, ◌≤◌, ◌<◌, ◌≡◌, ◌≢◌, refl, ◌∙◌, ap, some, List, [], ◌∷◌, ◌++◌, Bool, true,
  false, Bool-cases, inl, inr, ◌==◌, if◌then◌else◌, count, count-append, length, arith,
}
use rix_draft.LinkedList.{Ptr, null, Links, put, list_add}
use rix_draft.LinkedList.Ring.{Chain}
use rix_draft.LinkedList.Insert.{Ring-list_add}
use rix_draft.Pmm.{Zone, Pmm, unmark}
use rix_draft.Pmm
use rix_draft.Pmm.Release.{give_back}
use rix_draft.Pmm.Linked.{Memory, free_list, on_links, page_belongs, return_page, give_from}
use rix_draft.Pmm.Linked.Rep.{
  ZonesAt, free_nodes, Changed, ZoneAt-Changed, ZonesAt-Changed, Changed-widen, Changed-refl,
  on_links-run,
}

-- What the search does to the zones at `addrs`, where the sequences give `out`.
pub record Gives (addrs : List Ptr) (zs : List Zone) (page : Ptr) (m : Memory)
    (out : Bool × List Zone) (m' : Memory) : Type 0 where
  pub zones : ZonesAt m' addrs out.1
  pub flags : m'.flags ≡ (if out.0 then unmark m.flags page else m.flags)
  pub changed : Changed addrs (page ∷ free_nodes addrs zs) m m'
  pub more : (p : Ptr) → count p (free_nodes addrs out.1) ≤ count p (page ∷ free_nodes addrs zs)

module _ (page : Ptr) (z : Zone) (zs : List Zone) where
  give_back-later :
      Pmm.page_belongs page z ≡ false
      → give_back page (z ∷ zs) ≡ ((give_back page zs).0, z ∷ (give_back page zs).1)
  unfolding give_back
  give_back-later e = rw (give_back, e) refl

  give_back-here :
      Pmm.page_belongs page z ≡ true
      → give_back page (z ∷ zs)
        ≡ (true, record z { free_count = z.free_count + 1; free_pages = page ∷ z.free_pages } ∷ zs)
  unfolding give_back
  give_back-here e = rw (give_back, e) refl

module _ (head : Ptr) (fuel : ℕ) (page b : Ptr) (m : Memory) (other : (b == head) ≡ false) where
  give_from-later :
      page_belongs page b m ≡ false
      → (b == null) ≡ false
      → give_from head (suc fuel) page b m ≡ give_from head fuel page (m.links.next b) m
  unfolding give_from
  give_from-later e real = rw (give_from, other, e, real) refl

  give_from-here :
      page_belongs page b m ≡ true
      → give_from head (suc fuel) page b m
        ≡ return_page b page (on_links (list_add (free_list b) page) m)
  unfolding give_from
  give_from-here e = rw (give_from, other, e) refl

-- The search at the first zone `z` of the rest, at `b`, for a page that is on no list.
module _ (head page b : Ptr) (addrs : List Ptr) (z : Zone) (zs : List Zone) (m : Memory)
    (h : ZonesAt m (b ∷ addrs) (z ∷ zs)) (real : page ≢ null)
    (apart : (p : Ptr)
      → count p (page ∷ head ∷ b ∷ addrs) + count p (free_nodes (b ∷ addrs) (z ∷ zs)) ≤ 1) where
  pub split :
      (p : Ptr)
      → count p (z.free_pages ++ free_nodes addrs zs)
        ≡ count p z.free_pages + count p (free_nodes addrs zs)
  split p = count-append p z.free_pages (free_nodes addrs zs)

  given_memory : Links → Memory
  given_memory l = record m {
    links = l;
    free_count = put m.free_count b (m.free_count b + 1);
    flags = unmark m.flags page;
  }

  give_from-Gives_here :
      (m' : Memory) × (return_page b page (on_links (list_add (free_list b) page) m)
        ≡ some (true, m'))
      × Gives
          (b ∷ addrs)
          (z ∷ zs)
          page
          m
          (true, record z { free_count = z.free_count + 1; free_pages = page ∷ z.free_pages } ∷ zs)
          m'
  unfolding given_memory
  give_from-Gives_here =
      let (u, l, run, added) =
        Ring-list_add m.links (free_list b) page z.free_pages h.0.free_pages real
          (ground (arith, apart page, split page)) in
      let changed : Changed (b ∷ []) (page ∷ free_list b ∷ z.free_pages) m (given_memory l) =
        record {
          links = added.1;
          free_count = λ a out. ground arith;
          base = refl;
          size = refl;
          page_array = refl;
        } in
      (
        given_memory l,
        ap (return_page b page) (on_links-run (list_add (free_list b) page) m u l run),
        record {
          zones = (
            record {
              base = h.0.base;
              size = h.0.size;
              page_array = h.0.page_array;
              free_count = ground (arith, h.0.free_count);
              free_pages = added.0;
            },
            ZonesAt-Changed (b ∷ []) (page ∷ free_list b ∷ z.free_pages) m (given_memory l) changed
                addrs zs (λ a o. ground (arith, apart a)) (λ q o. ground (arith, apart q, split q))
                h.1,
          );
          flags = refl;
          changed =
              Changed-widen (b ∷ []) (page ∷ free_list b ∷ z.free_pages) (b ∷ addrs)
                (page ∷ free_nodes (b ∷ addrs) (z ∷ zs)) m (given_memory l) (λ a. ground arith)
                (λ q. ground (arith, split q)) changed;
          more = λ q. ground (arith, split q);
        },
      )

  give_from-Gives_later :
      (m' : Memory)
      → Gives addrs zs page m (give_back page zs) m'
      → Gives (b ∷ addrs) (z ∷ zs) page m ((give_back page zs).0, z ∷ (give_back page zs).1) m'
  give_from-Gives_later m' t = record {
    zones = (
      ZoneAt-Changed addrs (page ∷ free_nodes addrs zs) m m' t.changed b z (ground (arith, apart b))
          (λ q l. ground (arith, apart q, split q)) h.0,
      t.zones,
    );
    flags = t.flags;
    changed =
        Changed-widen addrs (page ∷ free_nodes addrs zs) (b ∷ addrs)
          (page ∷ free_nodes (b ∷ addrs) (z ∷ zs)) m m' (λ a. ground arith)
          (λ q. ground (arith, split q)) t.changed;
    more = λ q. ground (
      arith,
      split q,
      t.more q,
      count-append q z.free_pages (free_nodes addrs (give_back page zs).1),
    );
  }

-- The search, on the zones that follow a node.
pub give_from-give_back :
    (head : Ptr) (fuel : ℕ) (page a : Ptr) (addrs : List Ptr) (zs : List Zone) (m : Memory)
    → Chain m.links a addrs head
    → ZonesAt m addrs zs
    → page ≢ null
    → ((p : Ptr) → count p (page ∷ head ∷ addrs) + count p (free_nodes addrs zs) ≤ 1)
    → count null addrs ≡ 0
    → length addrs < fuel
    → (m' : Memory) × (give_from head fuel page (m.links.next a) m
        ≡ some ((give_back page zs).0, m'))
      × Gives addrs zs page m (give_back page zs) m'
give_from-give_back head zero page a addrs zs m c h rp apart real f = absurd (omega arith)
give_from-give_back head (suc fuel) page a [] [] m c h rp apart real f =
    let found : (head == head) ≡ true = ground arith in
    (
      m,
      (unfold give_from give_back in rw (c.0, give_from, found) refl),
      (unfold give_back in
          record {
            zones = tt;
            flags = refl;
            changed = Changed-refl [] (page ∷ []) m;
            more = λ p. omega arith;
          }),
    )
give_from-give_back head (suc fuel) page a [] (z ∷ zs) m c h rp apart real f = absurd h
give_from-give_back head (suc fuel) page a (b ∷ addrs) [] m c h rp apart real f = absurd h
give_from-give_back head (suc fuel) page a (b ∷ addrs) (z ∷ zs) m c h rp apart real f =
    let other : (b == head) ≡ false = ground (arith, apart b) in
    let real_b : (b == null) ≡ false = ground arith in
    let same : page_belongs page b m ≡ Pmm.page_belongs page z =
      rw (h.0.page_array, h.0.size) refl in
    elim (Bool-cases (Pmm.page_belongs page z)) [
      | inr not_here ↦
          let (m', run, t) =
            give_from-give_back head fuel page b addrs zs m c.2 h.1 rp
              (λ p. ground (arith, apart p, split head page b addrs z zs m h rp apart p))
              (ground arith) (omega arith) in
          rw (give_back-later page z zs not_here) (
            m',
            rw (c.0, give_from-later head fuel page b m other (same ∙ not_here) real_b) run,
            give_from-Gives_later head page b addrs z zs m h rp apart m' t,
          )
      | inl here ↦
          let (m', run, t) = give_from-Gives_here head page b addrs z zs m h rp apart in
          rw (give_back-here page z zs here)
            (m', rw (c.0, give_from-here head fuel page b m other (same ∙ here)) run, t)
    ]

-- A search without success leaves the zones as they are.
pub give_back-none :
    (page : Ptr) (zs : List Zone) → (give_back page zs).0 ≡ false → (give_back page zs).1 ≡ zs
unfolding give_back
give_back-none page [] e = refl
give_back-none page (z ∷ zs) e = elim (Bool-cases (Pmm.page_belongs page z)) [
  | inl here ↦ absurd (ground (arith, here))
  | inr not_here ↦
      let rest : (give_back page zs).0 ≡ false = rw (give_back, not_here) at e in
      rw (give_back, not_here) (ap (λ (t : List Zone). z ∷ t) (give_back-none page zs rest))
]
