-- ===== src/Pmm/Linked/Fill.antt =====
-- pmm.c: `pmm_alloc_pages`, in memory and on sequences.
use rix_draft.Base.{
  ℕ, zero, suc, ◌≤◌, ◌<◌, ◌≡◌, refl, ◌∙◌, ap, Option, none, some, List, [], ◌∷◌, ◌++◌, false,
  Option-cases, inl, inr, ◌==◌, count, count-append, length, arith,
}
use rix_draft.LinkedList.{Ptr, list_add_tail}
use rix_draft.LinkedList.Ring.{Ring, Ring-Spared}
use rix_draft.LinkedList.Insert.{Ring-list_add_tail}
use rix_draft.Pmm.{Zone, Pmm, Status, Drain, no_error, drain_zones, take_page, mark_taken}
use rix_draft.Pmm
use rix_draft.Pmm.Linked.{Memory, link_one, alloc_page, alloc_pages}
use rix_draft.Pmm.Linked.Rep.{
  ZonesAt-Changed, ZonesAt-real, free_nodes, Changed, IsPmm, on_links-run, Unshared,
}
use rix_draft.Pmm.Linked.Alloc.{Takes, count_page, take_from-take_page}
use rix_draft.Pmm.Linked.Walk.{drain_from-Drains}

-- The outcome on sequences and that in memory: both are faults, or the status and the count are the
-- same, and the memory holds the list and the zones.
abbrev pub Agrees :
    (head list : Ptr) (addrs : List Ptr)
    → Option (Status × ℕ × List ℕ × Pmm)
    → Option (Status × ℕ × Memory)
    → Type 0
Agrees head list addrs none none = Unit {0}
Agrees head list addrs none (some t) = ⊥
Agrees head list addrs (some r) none = ⊥
Agrees head list addrs (some r) (some t) =
    (r.0 ≡ t.0) × (r.1 ≡ t.1) × Ring t.2.links list r.2 × IsPmm t.2 head addrs r.3

module _ (head list : Ptr) (fuel : ℕ) (addrs : List Ptr) (out : List Ptr) (m : Memory) (s : Pmm)
    (h : IsPmm m head addrs s) (r : Ring m.links list out)
    (apart : Unshared (list ∷ out) head addrs s.zone_list) (enough : length addrs < fuel) where
  -- The slow path, while more than one page is wanted.
  fill_many :
      (wanted : ℕ)
      → Agrees head list addrs
          (Pmm.alloc_pages (suc (suc wanted)) out s)
          (alloc_pages head list fuel (suc (suc wanted)) m)
  unfolding Pmm.alloc_pages alloc_pages
  fill_many wanted =
      let zs = s.zone_list in
      let (m1, run, t) =
        drain_from-Drains head list fuel (suc (suc wanted)) head addrs zs out m s.flags h.flags
          h.holds.ring.chain h.holds.zones r apart (ground (arith, h.holds.ring.real)) enough in
      let split = λ (p : Ptr). count-append p out (free_nodes addrs zs) in
      let some_wanted : (suc (suc wanted) == 0) ≡ false = ground arith in
      let more_wanted : (suc (suc wanted) == 1) ≡ false = ground arith in
      rw (some_wanted, more_wanted, run)
        (
          refl,
          refl,
          t.ring,
          record {
            holds = record {
              ring =
                  Ring-Spared (list ∷ out ++ free_nodes addrs zs) m.links m1.links head addrs
                    (λ p o. ground (arith, apart p, split p)) t.changed.links h.holds.ring;
              zones = t.zones;
              apart = λ p. ground (arith, apart p, t.pages p);
            };
            flags = t.flags;
          },
        )

  -- The fast path, once the page `p` is taken.
  fill_page :
      (p : Ptr) (zs' : List Zone) (m1 : Memory)
      → Takes addrs s.zone_list m (some p, zs') m1
      → (m2 : Memory) × (link_one list (some (no_error, some p, m1)) ≡ some (no_error, 1, m2))
        × Ring m2.links list (out ++ p ∷ [])
        × IsPmm m2 head addrs (record s { zone_list = zs'; flags = mark_taken (some p) s.flags })
  unfolding link_one
  fill_page p zs' m1 t =
      let zs = s.zone_list in
      let free : 1 ≤ count p (free_nodes addrs zs) = ground (arith, t.pages p) in
      let r1 : Ring m1.links list out =
        Ring-Spared (free_nodes addrs zs) m.links m1.links list out (λ q o. omega (arith, apart q))
          t.changed.links r in
      let ring1 : Ring m1.links head addrs =
        Ring-Spared (free_nodes addrs zs) m.links m1.links head addrs
          (λ q o. omega (arith, apart q)) t.changed.links h.holds.ring in
      let (u, l, run, added) =
        Ring-list_add_tail m1.links list p out r1
          (λ n.
            let none_free = ZonesAt-real m addrs zs h.holds.zones in
            let same = ap (λ (q : Ptr). count q (free_nodes addrs zs)) n in
            omega (arith, none_free, same, free))
          (omega (arith, apart p)) in
      let m2 : Memory = record m1 { links = l } in
      let joined : Changed [] (p ∷ list ∷ out) m1 m2 = record {
        links = added.1;
        free_count = λ a o. refl;
        base = refl;
        size = refl;
        page_array = refl;
      } in
      (
        m2,
        rw (link_one, on_links-run (list_add_tail list p) m1 tt l run) refl,
        added.0,
        record {
          holds = record {
            ring =
                Ring-Spared (p ∷ list ∷ out) m1.links l head addrs
                  (λ q o. ground (arith, apart q, t.pages q)) added.1 ring1;
            zones =
                ZonesAt-Changed [] (p ∷ list ∷ out) m1 m2 joined addrs zs' (λ a o. refl)
                  (λ q o. ground (arith, apart q, t.pages q)) t.zones;
            apart = λ q. ground (arith, apart q, t.pages q);
          };
          flags = t.flags ∙ ap (mark_taken (some p)) h.flags;
        },
      )

  fill_one : Agrees head list addrs (Pmm.alloc_pages 1 out s) (alloc_pages head list fuel 1 m)
  unfolding Pmm.alloc_pages alloc_pages alloc_page Pmm.alloc_page Pmm.link_one
  fill_one =
      let zs = s.zone_list in
      let (m1, run, t) =
        take_from-take_page head fuel head addrs zs m h.holds.ring.chain h.holds.zones
          (λ p. omega (arith, apart p)) (ground (arith, h.holds.ring.real)) enough in
      let taken : alloc_page head fuel m ≡ some (no_error, (take_page zs).0, m1) =
        rw (alloc_page, run) refl in
      elim (Option-cases (take_page zs).0) [
        | inl e ↦ rw (taken, e, link_one) tt
        | inr (p, e) ↦
            let t' : Takes addrs zs m (some p, (take_page zs).1) m1 = record {
              zones = t.zones;
              flags = t.flags ∙ ap (λ (o : Option Ptr). mark_taken o m.flags) e;
              changed = t.changed;
              pages = λ q. let same = ap (count_page q) e in omega (arith, t.pages q, same);
            } in
            let (m2, run2, ring, holds) = fill_page p (take_page zs).1 m1 t' in
            rw (taken, e, run2) (refl, refl, ring, holds)
      ]

-- `pmm_alloc_pages`, run on the links of a memory that holds the zones and the list, comes out as on
-- sequences, for every count of pages: it faults when the fast path has no page, and otherwise gives
-- the same status and the same count, with the list and the zones in memory as the sequences have
-- them. The nodes of the list, of the zones and of the free pages are all different, and the fuel is
-- one round more than there are zones.
pub alloc_pages-Agrees :
    (head list : Ptr) (fuel wanted : ℕ) (addrs out : List Ptr) (m : Memory) (s : Pmm)
    → IsPmm m head addrs s
    → Ring m.links list out
    → Unshared (list ∷ out) head addrs s.zone_list
    → length addrs < fuel
    → Agrees head list addrs (Pmm.alloc_pages wanted out s) (alloc_pages head list fuel wanted m)
alloc_pages-Agrees head list fuel zero addrs out m s h r apart enough =
    unfold Pmm.alloc_pages alloc_pages in (refl, refl, r, h)
alloc_pages-Agrees head list fuel (suc zero) addrs out m s h r apart enough =
    fill_one head list fuel addrs out m s h r apart enough
alloc_pages-Agrees head list fuel (suc (suc wanted)) addrs out m s h r apart enough =
    fill_many head list fuel addrs out m s h r apart enough wanted
