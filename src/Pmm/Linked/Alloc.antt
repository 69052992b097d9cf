-- ===== src/Pmm/Linked/Alloc.antt =====
-- pmm.c: `pmm_alloc_page`, in memory and on sequences.
use rix_draft.Base.{
  ℕ, zero, suc, ◌+◌, ◌-◌, ◌≤◌, ◌<◌, ◌≡◌, refl, ◌∙◌, ap, Option, none, some, List, [], ◌∷◌, ◌++◌,
  true, false, Bool-cases, List-cases, inl, inr, ltb, ◌==◌, if◌then◌else◌, count, count-append,
  length, arith,
}
use rix_draft.LinkedList.{Ptr, null, list_remove_head}
use rix_draft.LinkedList.Ring.{Chain, Ring, Ring-Spared}
use rix_draft.Pmm.{Zone, Pmm, no_error, mark, mark_taken, take_page}
use rix_draft.Pmm
use rix_draft.Pmm.Linked.{Memory, free_list, on_links, claim_page, take_from, alloc_page}
use rix_draft.Pmm.Linked.Rep.{
  ZonesAt, free_nodes, Changed, ZoneAt-Changed, ZonesAt-Changed, Changed-widen, Changed-refl, IsPmm,
  on_links-run,
}
use rix_draft.Pmm.Linked.Take.{claim_page_lem, Ring-list_remove_head_nil}

abbrev pub count_page : Ptr → Option Ptr → ℕ
count_page p none = 0
count_page p (some q) = if q == p then 1 else 0

-- What a walk does to the zones at `addrs`, where the sequences give `out`.
pub record Takes (addrs : List Ptr) (zs : List Zone) (m : Memory) (out : Option Ptr × List Zone)
    (m' : Memory) : Type 0 where
  pub zones : ZonesAt m' addrs out.1
  pub flags : m'.flags ≡ mark_taken out.0 m.flags
  pub changed : Changed addrs (free_nodes addrs zs) m m'
  pub pages :
      (p : Ptr)
      → count p (free_nodes addrs out.1) + count_page p out.0 ≡ count p (free_nodes addrs zs)

module _ (z : Zone) (zs : List Zone) where
  take_page-later :
      ltb 0 z.free_count ≡ false → take_page (z ∷ zs) ≡ ((take_page zs).0, z ∷ (take_page zs).1)
  unfolding take_page
  take_page-later e = rw e refl

  take_page-empty :
      ltb 0 z.free_count ≡ true → z.free_pages ≡ [] → take_page (z ∷ zs) ≡ (none, z ∷ zs)
  unfolding take_page
  take_page-empty e f = rw e (simp f)

  take_page-here :
      (p : Ptr) (ps : List Ptr)
      → ltb 0 z.free_count ≡ true
      → z.free_pages ≡ p ∷ ps
      → take_page (z ∷ zs)
        ≡ (some p, record z { free_count = z.free_count - 1; free_pages = ps } ∷ zs)
  unfolding take_page
  take_page-here p ps e f = rw (e, f) refl

module _ (head : Ptr) (fuel : ℕ) (b : Ptr) (m : Memory) (other : (b == head) ≡ false) where
  take_from-later :
      ltb 0 (m.free_count b) ≡ false
      → (b == null) ≡ false
      → take_from head (suc fuel) b m ≡ take_from head fuel (m.links.next b) m
  unfolding take_from
  take_from-later e real = rw (take_from, other, e, real) refl

  take_from-here :
      ltb 0 (m.free_count b) ≡ true
      → take_from head (suc fuel) b m ≡ claim_page b (on_links (list_remove_head (free_list b)) m)
  unfolding take_from
  take_from-here e = rw (take_from, other, e) refl

-- The first zone of the rest gives a page, or its list is empty against its count.
module _ (head : Ptr) (fuel : ℕ) (b : Ptr) (addrs : List Ptr) (z : Zone) (zs : List Zone)
    (m : Memory) (h : ZonesAt m (b ∷ addrs) (z ∷ zs))
    (apart : (p : Ptr)
      → count p (head ∷ b ∷ addrs) + count p (free_nodes (b ∷ addrs) (z ∷ zs)) ≤ 1) where
  split :
      (p : Ptr)
      → count p (z.free_pages ++ free_nodes addrs zs)
        ≡ count p z.free_pages + count p (free_nodes addrs zs)
  split p = count-append p z.free_pages (free_nodes addrs zs)

  take_from-Takes_empty :
      ltb 0 z.free_count ≡ true
      → z.free_pages ≡ []
      → (m' : Memory) × (claim_page b (on_links (list_remove_head (free_list b)) m)
          ≡ some (none, m'))
        × Takes (b ∷ addrs) (z ∷ zs) m (none, z ∷ zs) m'
  take_from-Takes_empty e f =
      let ring : Ring m.links (free_list b) [] = rw f at h.0.free_pages in
      (
        m,
        ap (claim_page b) (
            on_links-run (list_remove_head (free_list b)) m none m.links
              (Ring-list_remove_head_nil m.links (free_list b) ring)),
        record {
          zones = h;
          flags = refl;
          changed = Changed-refl (b ∷ addrs) (free_nodes (b ∷ addrs) (z ∷ zs)) m;
          pages = λ p. omega arith;
        },
      )

  take_from-Takes_page :
      (p : Ptr) (ps : List Ptr)
      → z.free_pages ≡ p ∷ ps
      → (m' : Memory) × (claim_page b (on_links (list_remove_head (free_list b)) m)
          ≡ some (some p, m'))
        × Takes
            (b ∷ addrs)
            (z ∷ zs)
            m
            (some p, record z { free_count = z.free_count - 1; free_pages = ps } ∷ zs)
            m'
  take_from-Takes_page p ps f =
      let (m', run, zone, flags, changed, next, prev) = claim_page_lem m b z p ps h.0 f in
      let pages : (q : Ptr) → count q z.free_pages ≡ count q (p ∷ ps) = λ q. ap (count q) f in
      (
        m',
        run,
        record {
          zones = (
            zone,
            ZonesAt-Changed (b ∷ []) (free_list b ∷ p ∷ ps) m m' changed addrs zs
                (λ a l. ground (arith, apart a)) (λ q l. ground (arith, apart q, split q, pages q))
                h.1,
          );
          flags = flags;
          changed =
              Changed-widen (b ∷ []) (free_list b ∷ p ∷ ps) (b ∷ addrs)
                (free_nodes (b ∷ addrs) (z ∷ zs)) m m' (λ a. ground arith)
                (λ q. ground (arith, split q, pages q)) changed;
          pages = λ q. ground (arith, split q, pages q, count-append q ps (free_nodes addrs zs));
        },
      )

  take_from-Takes_later :
      (m' : Memory)
      → Takes addrs zs m (take_page zs) m'
      → Takes (b ∷ addrs) (z ∷ zs) m ((take_page zs).0, z ∷ (take_page zs).1) m'
  take_from-Takes_later m' t = record {
    zones = (
      ZoneAt-Changed addrs (free_nodes addrs zs) m m' t.changed b z (ground (arith, apart b))
          (λ q l. ground (arith, apart q, split q)) h.0,
      t.zones,
    );
    flags = t.flags;
    changed =
        Changed-widen addrs (free_nodes addrs zs) (b ∷ addrs) (free_nodes (b ∷ addrs) (z ∷ zs)) m m'
          (λ a. ground arith) (λ q. ground (arith, split q)) t.changed;
    pages = λ q. ground (
      arith,
      split q,
      t.pages q,
      count-append q z.free_pages (free_nodes addrs (take_page zs).1),
    );
  }

-- The walk, on the zones that follow a node.
pub take_from-take_page :
    (head : Ptr) (fuel : ℕ) (a : Ptr) (addrs : List Ptr) (zs : List Zone) (m : Memory)
    → Chain m.links a addrs head
    → ZonesAt m addrs zs
    → ((p : Ptr) → count p (head ∷ addrs) + count p (free_nodes addrs zs) ≤ 1)
    → count null addrs ≡ 0
    → length addrs < fuel
    → (m' : Memory) × (take_from head fuel (m.links.next a) m ≡ some ((take_page zs).0, m'))
      × Takes addrs zs m (take_page zs) m'
take_from-take_page head zero a addrs zs m c h apart real f = absurd (omega arith)
take_from-take_page head (suc fuel) a [] [] m c h apart real f =
    let found : (head == head) ≡ true = ground arith in
    (
      m,
      (unfold take_from take_page in rw (c.0, take_from, found) refl),
      (unfold take_page in
          record {
            zones = tt;
            flags = refl;
            changed = Changed-refl [] [] m;
            pages = λ p. omega arith;
          }),
    )
take_from-take_page head (suc fuel) a [] (z ∷ zs) m c h apart real f = absurd h
take_from-take_page head (suc fuel) a (b ∷ addrs) [] m c h apart real f = absurd h
take_from-take_page head (suc fuel) a (b ∷ addrs) (z ∷ zs) m c h apart real f =
    let other : (b == head) ≡ false = ground (arith, apart b) in
    let real_b : (b == null) ≡ false = ground arith in
    let split' = split head fuel b addrs z zs m h apart in
    elim (Bool-cases (ltb 0 z.free_count)) [
      | inr none_here ↦
          let empty : ltb 0 (m.free_count b) ≡ false = rw (h.0.free_count) none_here in
          let (m', run, t) =
            take_from-take_page head fuel b addrs zs m c.2 h.1
              (λ p. ground (arith, apart p, split' p)) (ground arith) (omega arith) in
          rw (take_page-later z zs none_here) (
            m',
            rw (c.0, take_from-later head fuel b m other empty real_b) run,
            take_from-Takes_later head fuel b addrs z zs m h apart m' t,
          )
      | inl some_here ↦
          let full : ltb 0 (m.free_count b) ≡ true = rw (h.0.free_count) some_here in
          elim (List-cases z.free_pages) [
            | inl e ↦
                let (m', run, t) =
                  take_from-Takes_empty head fuel b addrs z zs m h apart some_here e in
                rw (take_page-empty z zs some_here e)
                  (m', rw (c.0, take_from-here head fuel b m other full) run, t)
            | inr (p, ps, e) ↦
                let (m', run, t) = take_from-Takes_page head fuel b addrs z zs m h apart p ps e in
                rw (take_page-here z zs p ps some_here e)
                  (m', rw (c.0, take_from-here head fuel b m other full) run, t)
          ]
    ]

-- `pmm_alloc_page`, run on the links of a memory that holds the zones, meets no fault and does what it
-- does on sequences: the status and the page are the same, and the memory holds the zones behind it.
-- The fuel is one round more than there are zones.
pub alloc_page-IsPmm :
    (head : Ptr) (fuel : ℕ) (addrs : List Ptr) (m : Memory) (s : Pmm)
    → IsPmm m head addrs s
    → length addrs < fuel
    → (m' : Memory) × (alloc_page head fuel m
        ≡ some ((Pmm.alloc_page s).0, (Pmm.alloc_page s).1, m'))
      × IsPmm m' head addrs (Pmm.alloc_page s).2
unfolding alloc_page Pmm.alloc_page
alloc_page-IsPmm head fuel addrs m s h f =
    let zs = s.zone_list in
    let (m', run, t) =
      take_from-take_page head fuel head addrs zs m h.holds.ring.chain h.holds.zones h.holds.apart
        (ground (arith, h.holds.ring.real)) f in
    (
      m',
      rw (alloc_page, run) refl,
      record {
        holds = record {
          ring =
              Ring-Spared (free_nodes addrs zs) m.links m'.links head addrs
                (λ p l. omega (arith, h.holds.apart p)) t.changed.links h.holds.ring;
          zones = t.zones;
          apart = λ p. omega (arith, h.holds.apart p, t.pages p);
        };
        flags = t.flags ∙ ap (mark_taken (take_page zs).0) h.flags;
      },
    )
