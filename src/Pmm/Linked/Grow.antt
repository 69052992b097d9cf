-- ===== src/Pmm/Linked/Grow.antt =====
-- pmm.c: `pmm_add_zone`, in memory and on sequences.
use rix_draft.Base.{
  ℕ, suc, ◌+◌, ◌*◌, ◌/◌, ◌≤◌, ◌<◌, ◌^◌, ◌≡◌, ◌≢◌, refl, ◌∙◌, ap, some, List, [], ◌∷◌, ◌++◌, true,
  Bool-cases, inl, inr, ltb, u64, if◌then◌else◌, count, count-append, arith,
}
use rix_draft.Balloc.{BootAlloc, balloc}
use rix_draft.LinkedList.{Ptr, null, Links, put, list_init, list_add_tail}
use rix_draft.LinkedList.Ring.{Ring, Spared, Ring-Spared}
use rix_draft.LinkedList.Insert.{Ring-list_add_tail, Ring-list_init}
use rix_draft.Pmm.{
  Zone, Pmm, Status, no_error, invalid_args, page_size, page_bytes, clear_flags, is_spared,
  is_memory,
}
use rix_draft.CString.Fill.{written}
use rix_draft.Pmm
use rix_draft.Pmm.Alloc.{new_zone}
use rix_draft.Pmm.Invariant.{pages_from}
use rix_draft.Pmm.Linked.{Memory, free_list}
use rix_draft.Pmm.Linked.Rep.{
  Changed, ZoneAt, ZonesAt, ZonesAt-Changed, IsPmm, free_nodes, on_links-run,
}
use rix_draft.Pmm.Linked.Add.{
  add_pages, clear_links, clear_memory, add_zone, Grows, add_pages-Grows,
}
use rix_draft.Pmm.Linked.Arrays.{
  touched, count-touched, clear_links-Spared, count-pages_from, ZonesAt-cleared, zones_spared-all,
  ZonesAt-append, free_nodes-append, Pmm-add_zone, page_outside, zone_counted,
}

module _ (head zone : Ptr) (addrs : List Ptr) (m : Memory) (s : Pmm) (h : IsPmm m head addrs s)
    (real : zone ≢ null)
    (apart : (p : Ptr)
      → count p (head ∷ zone ∷ addrs) + count p (free_list zone ∷ free_nodes addrs s.zone_list) ≤ 1)
    (array bytes : ℕ) (mapped : 1 ≤ array)
    (away : (p : Ptr)
      → 1 ≤ count p (head ∷ zone ∷ addrs) + count p (free_list zone ∷ free_nodes addrs s.zone_list)
      → is_spared array bytes 16 p ≡ true)
    (fields : (a : Ptr) → 1 ≤ count a (zone ∷ addrs) → is_spared array bytes 64 a ≡ true) where
  -- The nodes whose links are written before the loop.
  changed_nodes : List Ptr
  changed_nodes = zone ∷ head ∷ free_list zone ∷ addrs ++ touched array bytes

  -- The links before the loop.
  cleared :
      (l1 : Links) × (l2 : Links) × (list_add_tail head zone m.links ≡ some (tt, l1))
      × (list_init (free_list zone) l1 ≡ some (tt, l2))
      × Ring (clear_links array bytes l2) head (addrs ++ zone ∷ [])
      × Ring (clear_links array bytes l2) (free_list zone) []
      × Spared changed_nodes m.links (clear_links array bytes l2)
  unfolding changed_nodes
  cleared =
      let (u, l1, run1, added) =
        Ring-list_add_tail m.links head zone addrs h.holds.ring real (ground (arith, apart zone)) in
      let (v, l2, run2, made) = Ring-list_init l1 (free_list zone) (λ e. omega (arith, e)) in
      let l3 = clear_links array bytes l2 in
      let wiped = clear_links-Spared array bytes l2 in
      let split = λ (p : Ptr). count-append p addrs (zone ∷ []) in
      (
        l1,
        l2,
        run1,
        run2,
        Ring-Spared (touched array bytes) l2 l3 head (addrs ++ zone ∷ [])
            (λ p o. count-touched array bytes p (away p (ground (arith, split p)))) wiped
            (Ring-Spared (free_list zone ∷ []) l1 l2 head (addrs ++ zone ∷ [])
              (λ p o. ground (arith, split p, apart p)) made.1 added.0),
        Ring-Spared (touched array bytes) l2 l3 (free_list zone) []
            (λ p o. count-touched array bytes p (away p (ground arith))) wiped made.0,
        λ p o.
            let whole = count-append p addrs (touched array bytes) in
            let first = added.1 p (ground (arith, whole)) in
            let second = made.1 p (ground (arith, whole)) in
            let third = wiped p (ground (arith, whole)) in
            (third.0 ∙ second.0 ∙ first.0, third.1 ∙ second.1 ∙ first.1),
      )

  -- The memory before the loop.
  ready : Links → Memory
  ready l = clear_memory array bytes (record m {
    links = l;
    free_count = put m.free_count zone 0;
    page_array = put m.page_array zone array;
  })

  ready-page_array : (l : Links) → (ready l).page_array zone ≡ array
  unfolding ready
  ready-page_array l = let out = fields zone (ground arith) in ground (arith, out)

  ZonesAt-ready :
      (l : Links)
      → Spared changed_nodes m.links (clear_links array bytes l)
      → ZonesAt (ready l) addrs s.zone_list
  unfolding ready changed_nodes
  ZonesAt-ready l same =
      let zs = s.zone_list in
      let m1 : Memory = record m { links = clear_links array bytes l } in
      let changed : Changed [] changed_nodes m m1 = record {
        links = same;
        free_count = λ a o. refl;
        base = refl;
        size = refl;
        page_array = refl;
      } in
      ZonesAt-cleared m zone 0 array bytes l addrs zs (ground (arith, apart zone))
        (λ a on. fields a (ground arith))
        (ZonesAt-Changed [] changed_nodes m m1 changed addrs zs (λ a o. refl)
          (λ p o.
            let out = count-touched array bytes p (away p (ground arith)) in
            ground (arith, apart p, out, count-append p addrs (touched array bytes)))
          h.holds.zones)

  -- The memory behind the loop.
  grown :
      (l : Links) (m' : Memory)
      → m.size zone / page_size * page_bytes ≤ bytes
      → Ring (clear_links array bytes l) head (addrs ++ zone ∷ [])
      → Spared changed_nodes m.links (clear_links array bytes l)
      → Grows zone array (m.size zone / page_size) 0 [] (ready l) m'
      → (boot' : BootAlloc)
      → IsPmm m' head (addrs ++ zone ∷ []) (record {
        zone_list = s.zone_list ++ new_zone (m.base zone) (m.size zone) array ∷ [];
        flags = clear_flags array bytes s.flags;
        boot = boot';
      })
  unfolding ready
  grown l m' fits ring same t boot' =
      let zs = s.zone_list in
      let pages = pages_from array 0 (m.size zone / page_size) in
      let inside = λ (p : Ptr). count-pages_from array 0 (m.size zone / page_size) p in
      let split = λ (p : Ptr). count-append p addrs (zone ∷ []) in
      let out = fields zone (ground arith) in
      let z = new_zone (m.base zone) (m.size zone) array in
      let zones : ZonesAt m' addrs zs =
        ZonesAt-Changed (zone ∷ []) (free_list zone ∷ pages) (ready l) m' t.changed addrs zs
          (λ a o. ground (arith, apart a)) (λ p o. ground (arith, apart p, away p, inside p))
          (ZonesAt-ready l same) in
      let zone_here : ZoneAt m' zone z = record {
        base = ap (λ (f : Ptr → ℕ). f zone) t.changed.base ∙ ground (arith, out);
        size = ap (λ (f : Ptr → ℕ). f zone) t.changed.size ∙ ground (arith, out);
        page_array = ap (λ (f : Ptr → ℕ). f zone) t.changed.page_array ∙ ground (arith, out);
        free_count = ground (arith, t.free_count);
        free_pages = t.ring;
      } in
      record {
        holds = record {
          ring =
              Ring-Spared (free_list zone ∷ pages) (clear_links array bytes l) m'.links head
                (addrs ++ zone ∷ []) (λ p o. ground (arith, apart p, away p, split p, inside p))
                t.changed.links ring;
          zones = ZonesAt-append m' addrs zs zone z zones zone_here;
          apart = λ p. ground (
            arith,
            apart p,
            away p,
            split p,
            inside p,
            t.ring.once p,
            free_nodes-append m' addrs zs zone z p zones,
          );
        };
        flags = t.flags ∙ ap (clear_flags array bytes) h.flags;
      }

add_zone-run :
    (head zone : Ptr) (m m' : Memory) (boot : BootAlloc) (l1 l2 : Links)
    → ltb 0 (m.size zone) ≡ true
    → list_add_tail head zone m.links ≡ some (tt, l1)
    → list_init (free_list zone) l1 ≡ some (tt, l2)
    → let frames = m.size zone / page_size in
      let bytes = u64 (frames * page_bytes) in
      let array = (balloc bytes boot).0 in
      is_memory array (written array bytes) ≡ true
      → add_pages zone (suc frames) frames 0 (
          clear_memory array (written array bytes) (record m {
            links = l2;
            free_count = put m.free_count zone 0;
            page_array = put m.page_array zone array;
          }))
        ≡ some m'
      → add_zone head zone m boot
        ≡ some (no_error, m', (balloc (u64 (m.size zone / page_size * page_bytes)) boot).1)
unfolding add_zone
add_zone-run head zone m m' boot l1 l2 positive run1 run2 memory run =
    let m1 : Memory = record m { links = l1; free_count = put m.free_count zone 0 } in
    let first = on_links-run (list_add_tail head zone) m tt l1 run1 in
    let second = on_links-run (list_init (free_list zone)) m1 tt l2 run2 in
    rw (add_zone, positive, first, second, memory, run) refl

-- The array that `balloc` returns for the zone at `zone`, and the bytes of it that `memset` writes.
abbrev pub array_of : Memory → (zone : Ptr) → BootAlloc → ℕ
array_of m zone boot = (balloc (u64 (m.size zone / page_size * page_bytes)) boot).0

abbrev pub reset_of : Memory → (zone : Ptr) → BootAlloc → ℕ
reset_of m zone boot = written (array_of m zone boot) (u64 (m.size zone / page_size * page_bytes))

-- `pmm_add_zone`, run in a memory that holds the zones, meets no fault, ends, and does what it does
-- on sequences. A structure of size 0 is refused, with nothing changed. Any other is linked in last,
-- and the memory holds the zones with it, its pages in the ring of its free list. The structure is not
-- `NULL`, its size is below 16 TiB, its nodes are none of those in use, and the array that `balloc`
-- returns is not at `NULL`. The bytes that `memset` writes from there on, about twice the array, do
-- not wrap and are none of a node in use or of a structure of a zone.
pub add_zone-IsPmm :
    (head zone : Ptr) (addrs : List Ptr) (m : Memory) (s : Pmm)
    → IsPmm m head addrs s
    → zone ≢ null
    → m.size zone < 2 ^ 44
    → ((p : Ptr)
        → count p (head ∷ zone ∷ addrs) + count p (free_list zone ∷ free_nodes addrs s.zone_list)
          ≤ 1)
    → 1 ≤ array_of m zone s.boot
    → array_of m zone s.boot + reset_of m zone s.boot ≤ 2 ^ 64
    → ((p : Ptr)
        → 1
          ≤ count p (head ∷ zone ∷ addrs) + count p (free_list zone ∷ free_nodes addrs s.zone_list)
        → is_spared (array_of m zone s.boot) (reset_of m zone s.boot) 16 p ≡ true)
    → ((a : Ptr)
        → 1 ≤ count a (zone ∷ addrs)
        → is_spared (array_of m zone s.boot) (reset_of m zone s.boot) 64 a ≡ true)
    → (r : Status × Pmm) × (m' : Memory) × (Pmm.add_zone (m.base zone) (m.size zone) s ≡ some r)
      × (add_zone head zone m s.boot ≡ some (r.0, m', r.1.boot))
      × IsPmm m' head (if ltb 0 (m.size zone) then addrs ++ zone ∷ [] else addrs) r.1
unfolding add_zone Pmm.add_zone ready
add_zone-IsPmm head zone addrs m s h real small apart mapped room away fields =
    let frames = m.size zone / page_size in
    let array = array_of m zone s.boot in
    let reset = reset_of m zone s.boot in
    elim (Bool-cases (ltb 0 (m.size zone))) [
      | inr none_here ↦ rw (add_zone, none_here, Pmm.add_zone) ((invalid_args, s), m, refl, refl, h)
      | inl some_here ↦
          let fits : frames * page_bytes ≤ reset = ground (arith, small) in
          let outside = away (free_list zone) (
            omega
              (arith, zone_counted zone (head ∷ zone ∷ addrs) (free_nodes addrs s.zone_list))) in
          let memory : is_memory array reset ≡ true = ground (arith, room) in
          let spared =
            zones_spared-all array reset m addrs s.zone_list h.holds.zones
              (λ p on. away p (ground arith)) in
          let (l1, l2, run1, run2, ring, free, same) =
            cleared head zone addrs m s h real apart array reset mapped away fields in
          let (m', run, t) =
            add_pages-Grows zone array mapped frames frames 0 []
              (ready head zone addrs m s h real apart array reset mapped away fields l2)
              (omega arith) (omega (arith, small)) free
              (ready-page_array head zone addrs m s h real apart array reset mapped away fields l2)
              (λ k low high.
                page_outside array reset frames (free_list zone) fits outside k high) in
          (
            (
              no_error,
              record {
                zone_list = s.zone_list ++ new_zone (m.base zone) (m.size zone) array ∷ [];
                flags = clear_flags array reset s.flags;
                boot = (balloc (u64 (frames * page_bytes)) s.boot).1;
              },
            ),
            m',
            Pmm-add_zone (m.base zone) (m.size zone) s some_here small memory spared,
            add_zone-run head zone m m' s.boot l1 l2 some_here run1 run2 memory run,
            rw some_here (
                grown head zone addrs m s h real apart array reset mapped away fields l2 m' fits
                  ring same t _),
          )
    ]
