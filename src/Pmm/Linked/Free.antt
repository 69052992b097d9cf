-- ===== src/Pmm/Linked/Free.antt =====
-- pmm.c: `pmm_free_pages` and `pmm_free_page`, in memory and on sequences.
use rix_draft.Base.{
  ℕ, zero, suc, ◌+◌, ◌<◌, ◌≡◌, ◌≢◌, refl, ◌∙◌, ap, some, List, [], ◌∷◌, Bool, true, false,
  Bool-cases, inl, inr, if◌then◌else◌, length, arith,
}
use rix_draft.LinkedList.{Ptr, null, Links, list_init, list_add, list_is_empty, list_remove_head}
use rix_draft.LinkedList.Ring.{Ring, Ring-Spared}
use rix_draft.LinkedList.Insert.{Ring-list_init, Ring-list_add}
use rix_draft.LinkedList.Query.{Ring-list_is_empty}
use rix_draft.LinkedList.Delete.{Ring-list_remove_head}
use rix_draft.Pmm.{Pmm, unmark}
use rix_draft.Pmm.Release
use rix_draft.Pmm.Release.{give_back}
use rix_draft.Pmm.Linked.{Memory, give_from, free_pages, free_page}
use rix_draft.Pmm.Linked.Rep.{free_nodes, Changed, ZonesAt-Changed, IsPmm, on_links-run, Unshared}
use rix_draft.Pmm.Linked.Give.{give_from-give_back, give_back-none}

-- The state of the sequences behind one page.
after_page : Ptr → Pmm → Pmm
after_page page s =
    let (found, zones) = give_back page s.zone_list in
    if found then record s { zone_list = zones; flags = unmark s.flags page } else s

module _ (head : Ptr) (fuel : ℕ) (list : Ptr) (addrs : List Ptr)
    (enough : length addrs < fuel) where
  -- One round of the outer loop.
  give_from-IsPmm :
      (page : Ptr) (pages : List Ptr) (m : Memory) (s : Pmm)
      → IsPmm m head addrs s
      → Ring m.links list (page ∷ pages)
      → Unshared (list ∷ page ∷ pages) head addrs s.zone_list
      → (l : Links) × (m' : Memory) × (list_remove_head list m.links ≡ some (some page, l))
        × (give_from head fuel page (l.next head) (record m { links = l })
            ≡ some ((give_back page s.zone_list).0, m'))
        × (IsPmm m' head addrs (after_page page s)
            × Ring m'.links list pages
            × Unshared (list ∷ pages) head addrs (after_page page s).zone_list)
  unfolding after_page
  give_from-IsPmm page pages m s h r apart =
      let zs = s.zone_list in
      let (got, l, run, removed) = Ring-list_remove_head m.links list page pages r in
      let m1 : Memory = record m { links = l } in
      let cut : Changed [] (list ∷ page ∷ pages) m m1 = record {
        links = removed.4;
        free_count = λ a o. refl;
        base = refl;
        size = refl;
        page_array = refl;
      } in
      let ring1 : Ring l head addrs =
        Ring-Spared (list ∷ page ∷ pages) m.links l head addrs (λ p o. omega (arith, apart p))
          removed.4 h.holds.ring in
      let zones1 =
        ZonesAt-Changed [] (list ∷ page ∷ pages) m m1 cut addrs zs (λ a o. refl)
          (λ p o. omega (arith, apart p)) h.holds.zones in
      let (m2, found, t) =
        give_from-give_back head fuel page head addrs zs m1 ring1.chain zones1
          (λ e. ground (arith, r.real)) (λ p. ground (arith, apart p)) (ground (arith, ring1.real))
          enough in
      let ring2 : Ring m2.links head addrs =
        Ring-Spared (page ∷ free_nodes addrs zs) l m2.links head addrs
          (λ p o. ground (arith, apart p)) t.changed.links ring1 in
      let list2 : Ring m2.links list pages =
        Ring-Spared (page ∷ free_nodes addrs zs) l m2.links list pages
          (λ p o. ground (arith, apart p)) t.changed.links removed.1 in
      let fewer : Unshared (list ∷ pages) head addrs (give_back page zs).1 =
        λ p. ground (arith, apart p, t.more p) in
      (
        l,
        m2,
        rw removed.0 at run,
        found,
        elim (Bool-cases (give_back page zs).0) [
          | inl yes_found ↦
              let flags : m2.flags ≡ unmark m.flags page = rw yes_found at t.flags in
              rw yes_found (
                record {
                  holds = record {
                    ring = ring2;
                    zones = t.zones;
                    apart = λ p. omega (arith, fewer p);
                  };
                  flags = flags ∙ ap (λ (f : ℕ → ℕ). unmark f page) h.flags;
                },
                list2,
                fewer,
              )
          | inr lost ↦
              let same = give_back-none page zs lost in
              let flags : m2.flags ≡ m.flags = rw lost at t.flags in
              rw lost (
                record {
                  holds = record {
                    ring = ring2;
                    zones = rw same at t.zones;
                    apart = λ p. omega (arith, apart p);
                  };
                  flags = flags ∙ h.flags;
                },
                list2,
                λ p. ground (arith, apart p),
              )
        ],
      )

  free_pages-run :
      (rounds : ℕ) (page : Ptr) (pages : List Ptr) (m m2 m3 : Memory) (l : Links) (found : Bool)
      (freed : ℕ)
      → Ring m.links list (page ∷ pages)
      → list_remove_head list m.links ≡ some (some page, l)
      → give_from head fuel page (l.next head) (record m { links = l }) ≡ some (found, m2)
      → free_pages head fuel rounds list m2 ≡ some (freed, m3)
      → free_pages head fuel (suc rounds) list m ≡ some ((if found then 1 else 0) + freed, m3)
  unfolding free_pages
  free_pages-run rounds page pages m m2 m3 l found freed r removed given rest =
      let full =
        on_links-run (list_is_empty list) m false m.links
          (Ring-list_is_empty m.links list (page ∷ pages) r) in
      let cut = on_links-run (list_remove_head list) m (some page) l removed in
      rw (free_pages, full, cut, given, rest) refl

  -- `pmm_free_pages`, run on the links of a memory that holds the zones, meets no fault and does what
  -- it does on sequences: the number is the same, the memory holds the zones behind it, and the list of
  -- pages is empty. The nodes of the list, of the zones and of the free pages are all different. The
  -- fuel is one round more than there are pages and zones.
  pub free_pages-IsPmm :
      (rounds : ℕ) (pages : List Ptr) (m : Memory) (s : Pmm)
      → IsPmm m head addrs s
      → Ring m.links list pages
      → Unshared (list ∷ pages) head addrs s.zone_list
      → length pages < rounds
      → (m' : Memory) × (free_pages head fuel rounds list m
          ≡ some ((Release.free_pages pages s).0, m'))
        × IsPmm m' head addrs (Release.free_pages pages s).1
        × Ring m'.links list []
  unfolding Release.free_pages after_page
  free_pages-IsPmm zero pages m s h r apart f = absurd (omega arith)
  free_pages-IsPmm (suc rounds) [] m s h r apart f =
      let empty =
        on_links-run (list_is_empty list) m true m.links (Ring-list_is_empty m.links list [] r) in
      (m, (unfold free_pages in rw (free_pages, empty) refl), h, r)
  free_pages-IsPmm (suc rounds) (page ∷ pages) m s h r apart f =
      let (l, m2, removed, given, after) = give_from-IsPmm page pages m s h r apart in
      let (m3, rest, held, nil) =
        free_pages-IsPmm rounds pages m2 (after_page page s) after.0 after.1 after.2
          (omega arith) in
      (
        m3,
        free_pages-run rounds page pages m m2 m3 l (give_back page s.zone_list).0
            (Release.free_pages pages (after_page page s)).0 r removed given rest,
        held,
        nil,
      )

  -- `pmm_free_page` on a page that is on no list, with a local list at a fresh address.
  pub free_page-IsPmm :
      (page : Ptr) (m : Memory) (s : Pmm)
      → IsPmm m head addrs s
      → Unshared (list ∷ page ∷ []) head addrs s.zone_list
      → list ≢ null
      → page ≢ null
      → (m' : Memory) × (free_page head fuel list page m ≡ some ((Release.free_page page s).0, m'))
        × IsPmm m' head addrs (Release.free_page page s).1
  unfolding Release.free_page free_page
  free_page-IsPmm page m s h apart real_list real_page =
      let (u, l1, run1, made) = Ring-list_init m.links list real_list in
      let (v, l2, run2, added) =
        Ring-list_add l1 list page [] made.0 real_page (ground (arith, apart page)) in
      let m2 : Memory = record m { links = l2 } in
      let change : Changed [] (page ∷ list ∷ []) m m2 = record {
        links = λ p o.
            let first = made.1 p (ground arith) in
            let second = added.1 p (ground arith) in (second.0 ∙ first.0, second.1 ∙ first.1);
        free_count = λ a o. refl;
        base = refl;
        size = refl;
        page_array = refl;
      } in
      let h2 : IsPmm m2 head addrs s = record {
        holds = record {
          ring =
              Ring-Spared (page ∷ list ∷ []) m.links l2 head addrs (λ p o. ground (arith, apart p))
                change.links h.holds.ring;
          zones =
              ZonesAt-Changed [] (page ∷ list ∷ []) m m2 change addrs s.zone_list (λ a o. refl)
                (λ p o. ground (arith, apart p)) h.holds.zones;
          apart = h.holds.apart;
        };
        flags = h.flags;
      } in
      let (m3, run3, held, nil) =
        free_pages-IsPmm 2 (page ∷ []) m2 s h2 added.0 apart (omega arith) in
      let first = on_links-run (list_init list) m u l1 run1 in
      let second = on_links-run (list_add list page) (record m { links = l1 }) v l2 run2 in
      (m3, rw (free_page, first, second) run3, held)
