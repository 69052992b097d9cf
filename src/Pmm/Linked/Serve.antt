-- ===== src/Pmm/Linked/Serve.antt =====
-- pmm.c: sequences of calls of `pmm_alloc_page` and `pmm_free_page` in memory, by a caller that keeps the
-- pages that it gets and frees those that it keeps.
use rix_draft.Base.{
  ℕ, ◌+◌, ◌≤◌, ◌<◌, ◌≡◌, ◌≢◌, refl, ap, Option, Option-cases, none, some, inl, inr, Bool-cases,
  List, [], ◌∷◌, map, ◌==◌, if◌then◌else◌, count, count-append, unlink, count-unlink, length, arith,
}
use rix_draft.LinkedList.{Ptr, null}
use rix_draft.Pmm.{Zone, Pmm}
use rix_draft.Pmm
use rix_draft.Pmm.Invariant.{Counted, total_free, free_at}
use rix_draft.Pmm.Alloc.{Taken, alloc_page_lem}
use rix_draft.Pmm.Release.{give_back}
use rix_draft.Pmm.Release
use rix_draft.Pmm.Freeing.{give_back-IsGiven, free_pages_lem}
use rix_draft.Pmm.Linked.{Memory, free_list, alloc_page, free_page}
use rix_draft.Pmm.Linked.Rep.{ZonesAt, ZonesAt-real, free_nodes, IsPmm, Unshared}
use rix_draft.Pmm.Linked.Alloc.{alloc_page-IsPmm}
use rix_draft.Pmm.Linked.Free.{free_page-IsPmm}

-- What the caller asks for. A page that it does not keep is not freed.
pub data Request : Type 0 where
  get : Request
  give : (page : Ptr) → Request

unfoldable pub serve :
    (head list : Ptr) (fuel : ℕ) → Request → Memory → List Ptr → Option (Memory × List Ptr)
unfolding alloc_page free_page
serve head list fuel get m held = elim (alloc_page head fuel m) [
  | none ↦ none
  | some (status, none, m') ↦ some (m', held)
  | some (status, some page, m') ↦ some (m', page ∷ held)
]
serve head list fuel (give page) m held =
    if count page held == 0 then some (m, held) else (elim (free_page head fuel list page m) [
      | none ↦ none
      | some (n, m') ↦ some (m', unlink page held)
    ])

unfoldable pub serve_all :
    (head list : Ptr) (fuel : ℕ) → List Request → Memory → List Ptr → Option (Memory × List Ptr)
unfolding serve
serve_all head list fuel [] m held = some (m, held)
serve_all head list fuel (request ∷ requests) m held = elim (serve head list fuel request m held) [
  | none ↦ none
  | some (m', held') ↦ serve_all head list fuel requests m' held'
]

-- The memory holds zones that count their pages, and the pages that are kept, the free pages, the zones and
-- the heads of the lists are all different.
pub record Kept (head list : Ptr) (addrs : List Ptr) (m : Memory) (held : List Ptr) : Type 0 where
  pub pmm : Pmm
  pub holds : IsPmm m head addrs pmm
  pub counted : Counted pmm.zone_list
  pub apart : Unshared (list ∷ held) head addrs pmm.zone_list
  pub real : count null held ≡ 0

-- The nodes of the free lists are the heads and the free pages.
count-free_nodes :
    (m : Memory) (addrs : List Ptr) (zs : List Zone) (p : Ptr)
    → ZonesAt m addrs zs
    → count p (free_nodes addrs zs) ≡ count p (map free_list addrs) + free_at p zs
count-free_nodes m [] [] p h = refl
count-free_nodes m [] (z ∷ zs) p h = absurd h
count-free_nodes m (a ∷ addrs) [] p h = absurd h
count-free_nodes m (a ∷ addrs) (z ∷ zs) p h =
    omega
      (arith, count-append p z.free_pages (free_nodes addrs zs), count-free_nodes m addrs zs p h.1)

free_page-free_at :
    (page q : Ptr) (s : Pmm)
    → Counted s.zone_list
    → free_at q (Release.free_page page s).1.zone_list
      ≤ free_at q s.zone_list + (if page == q then 1 else 0)
unfolding Release.free_page Release.free_pages
free_page-free_at page q s c =
    let given = give_back-IsGiven page s.zone_list c in
    elim (Bool-cases (give_back page s.zone_list).0) [
      | inl found ↦
          let more : free_at q (give_back page s.zone_list).1
              ≡ free_at q s.zone_list + (if page == q then 1 else 0) =
            rw found at given.free q in
          rw found (omega (arith, more))
      | inr lost ↦ rw lost (omega arith)
    ]

free_page-Counted :
    (page : Ptr) (s : Pmm) → Counted s.zone_list → Counted (Release.free_page page s).1.zone_list
unfolding Release.free_page
free_page-Counted page s c = (free_pages_lem (page ∷ []) s c).2

module _ (head list : Ptr) (fuel : ℕ) (addrs : List Ptr) (real : list ≢ null)
    (enough : length addrs < fuel) where
  serve-get :
      (m : Memory) (held : List Ptr)
      → Kept head list addrs m held
      → (m' : Memory) × (held' : List Ptr) × (serve head list fuel get m held ≡ some (m', held'))
        × Kept head list addrs m' held'
  unfolding serve
  serve-get m held k =
      let s = k.pmm in
      let (m', run, h) = alloc_page-IsPmm head fuel addrs m s k.holds enough in
      let taken = (alloc_page_lem s k.counted).1 in
      let old = λ (q : Ptr). count-free_nodes m addrs s.zone_list q k.holds.holds.zones in
      let new =
        λ (q : Ptr). count-free_nodes m' addrs (Pmm.alloc_page s).2.zone_list q h.holds.zones in
      elim (Option-cases (Pmm.alloc_page s).1) [
        | inl e ↦
            let same : (total_free s.zone_list ≡ 0)
                × ((Pmm.alloc_page s).2.zone_list ≡ s.zone_list) =
              rw e at taken in
            (
              m',
              held,
              rw (serve, run, e) refl,
              record {
                pmm = (Pmm.alloc_page s).2;
                holds = h;
                counted = rw same.1 k.counted;
                apart = rw same.1 k.apart;
                real = k.real;
              },
            )
        | inr (p, e) ↦
            let took : Taken s.zone_list (some p, (Pmm.alloc_page s).2.zone_list) = rw e at taken in
            let no_null = ZonesAt-real m addrs s.zone_list k.holds.holds.zones in
            (
              m',
              p ∷ held,
              rw (serve, run, e) refl,
              record {
                pmm = (Pmm.alloc_page s).2;
                holds = h;
                counted = took.0;
                apart = λ q. omega (arith, k.apart q, old q, new q, took.2 q);
                real = omega (arith, k.real, no_null, old null, took.2 null);
              },
            )
      ]

  serve-give :
      (page : Ptr) (m : Memory) (held : List Ptr)
      → Kept head list addrs m held
      → (m' : Memory) × (held' : List Ptr) × (serve head list fuel (give page) m held
          ≡ some (m', held'))
        × Kept head list addrs m' held'
  unfolding serve
  serve-give page m held k = elim (Bool-cases (count page held == 0)) [
    | inl e ↦ (m, held, rw e refl, k)
    | inr e ↦
        let s = k.pmm in
        let once : 1 ≤ count page held = ground (arith, e) in
        let (m', run, h) =
          free_page-IsPmm head fuel list addrs enough page m s k.holds
            (λ q. ground (arith, k.apart q, k.apart page, e)) real
            (λ n. let same = ap (λ (q : Ptr). count q held) n in ground (arith, same, e, k.real)) in
        let old = λ (q : Ptr). count-free_nodes m addrs s.zone_list q k.holds.holds.zones in
        let new = λ (q : Ptr).
          count-free_nodes m' addrs (Pmm.Release.free_page page s).1.zone_list q h.holds.zones in
        (
          m',
          unlink page held,
          rw (serve, e, run) refl,
          record {
            pmm = (Pmm.Release.free_page page s).1;
            holds = h;
            counted = free_page-Counted page s k.counted;
            apart = λ q. omega (
              arith,
              k.apart q,
              old q,
              new q,
              free_page-free_at page q s k.counted,
              count-unlink page q held once,
            );
            real = omega (arith, k.real, count-unlink page null held once);
          },
        )
  ]

  serve-Kept :
      (request : Request) (m : Memory) (held : List Ptr)
      → Kept head list addrs m held
      → (m' : Memory) × (held' : List Ptr) × (serve head list fuel request m held
          ≡ some (m', held'))
        × Kept head list addrs m' held'
  serve-Kept get m held k = serve-get m held k
  serve-Kept (give page) m held k = serve-give page m held k

  -- Any sequence of calls of `pmm_alloc_page` and `pmm_free_page` ends without a fault, in memory, for
  -- a caller that frees pages that it keeps only. It starts from zones that count their free pages,
  -- with all nodes different and the local list of `pmm_free_page` at an address of its own.
  -- Whatever the order of the calls, the pages that the caller keeps, the free pages, the zones and
  -- the heads of the lists are all different afterwards, so that no page is handed out twice, and
  -- the zones count their free pages. The fuel is one round more than there are zones.
  pub serve_all-Kept :
      (requests : List Request) (m : Memory) (held : List Ptr)
      → Kept head list addrs m held
      → (m' : Memory) × (held' : List Ptr) × (serve_all head list fuel requests m held
          ≡ some (m', held'))
        × Kept head list addrs m' held'
  unfolding serve_all
  serve_all-Kept [] m held k = (m, held, refl, k)
  serve_all-Kept (request ∷ requests) m held k =
      let (m1, held1, run, k1) = serve-Kept request m held k in
      let (m2, held2, runs, k2) = serve_all-Kept requests m1 held1 k1 in
      (m2, held2, rw (serve_all, run) runs, k2)
