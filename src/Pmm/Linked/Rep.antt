-- ===== src/Pmm/Linked/Rep.antt =====
-- pmm.c: which zones and pages the structures in memory are.
use rix_draft.Base.{◌+◌, ◌≤◌, ◌≡◌, List, [], ◌∷◌, ◌++◌, count, count-append, arith, refl, some}
use rix_draft.LinkedList.{Ptr, null, Links, Cmd}
use rix_draft.LinkedList.Ring.{Ring, Spared, Ring-Spared}
use rix_draft.Pmm.{Zone, Pmm}
use rix_draft.Pmm.Linked.{Memory, free_list, on_links}

-- The structure of a zone.
pub record ZoneAt (m : Memory) (a : Ptr) (z : Zone) : Type 0 where
  pub base : m.base a ≡ z.base
  pub size : m.size a ≡ z.size
  pub page_array : m.page_array a ≡ z.page_array
  pub free_count : m.free_count a ≡ z.free_count
  pub free_pages : Ring m.links (free_list a) z.free_pages

-- The structures of the zones, by their addresses.
abbrev pub ZonesAt : Memory → List Ptr → List Zone → Type 0
ZonesAt m [] [] = Unit {0}
ZonesAt m [] (z ∷ zs) = ⊥
ZonesAt m (a ∷ addrs) [] = ⊥
ZonesAt m (a ∷ addrs) (z ∷ zs) = ZoneAt m a z × ZonesAt m addrs zs

-- The nodes of the free lists of the zones, with their heads.
abbrev pub free_nodes : List Ptr → List Zone → List Ptr
free_nodes [] zs = []
free_nodes (a ∷ addrs) [] = []
free_nodes (a ∷ addrs) (z ∷ zs) = free_list a ∷ z.free_pages ++ free_nodes addrs zs

-- The memory holds the zones, in the ring of `head`, and no node is shared.
pub record Holds (m : Memory) (head : Ptr) (addrs : List Ptr) (zs : List Zone) : Type 0 where
  pub ring : Ring m.links head addrs
  pub zones : ZonesAt m addrs zs
  pub apart : (p : Ptr) → count p (head ∷ addrs) + count p (free_nodes addrs zs) ≤ 1

-- Nodes of three kinds that are all different: those of a list of pages, those of the zones
-- and those of the free pages.
abbrev pub Unshared : (list : List Ptr) (head : Ptr) (addrs : List Ptr) → List Zone → Type 0
Unshared list head addrs zs =
    (p : Ptr) → count p list + count p (head ∷ addrs) + count p (free_nodes addrs zs) ≤ 1

-- A memory that holds the zones, with their flags.
pub record IsPmm (m : Memory) (head : Ptr) (addrs : List Ptr) (s : Pmm) : Type 0 where
  pub holds : Holds m head addrs s.zone_list
  pub flags : m.flags ≡ s.flags

-- A change of the links of `nodes` and of the counts of `zones` at most.
pub record Changed (zones nodes : List Ptr) (m m' : Memory) : Type 0 where
  pub links : Spared nodes m.links m'.links
  pub free_count : (a : Ptr) → count a zones ≡ 0 → m'.free_count a ≡ m.free_count a
  pub base : m'.base ≡ m.base
  pub size : m'.size ≡ m.size
  pub page_array : m'.page_array ≡ m.page_array

module _ (zones nodes : List Ptr) (m m' : Memory) (c : Changed zones nodes m m') where
  pub ZoneAt-Changed :
      (a : Ptr) (z : Zone)
      → count a zones ≡ 0
      → ((p : Ptr) → 1 ≤ count p (free_list a ∷ z.free_pages) → count p nodes ≡ 0)
      → ZoneAt m a z
      → ZoneAt m' a z
  ZoneAt-Changed a z other apart h = record {
    base = rw c.base h.base;
    size = rw c.size h.size;
    page_array = rw c.page_array h.page_array;
    free_count = rw (c.free_count a other) h.free_count;
    free_pages =
        Ring-Spared nodes m.links m'.links (free_list a) z.free_pages apart c.links h.free_pages;
  }

  pub ZonesAt-Changed :
      (addrs : List Ptr) (zs : List Zone)
      → ((a : Ptr) → 1 ≤ count a addrs → count a zones ≡ 0)
      → ((p : Ptr) → 1 ≤ count p (free_nodes addrs zs) → count p nodes ≡ 0)
      → ZonesAt m addrs zs
      → ZonesAt m' addrs zs
  ZonesAt-Changed [] [] other apart h = tt
  ZonesAt-Changed [] (z ∷ zs) other apart h = h
  ZonesAt-Changed (a ∷ addrs) [] other apart h = h
  ZonesAt-Changed (a ∷ addrs) (z ∷ zs) other apart h =
      let split = λ (p : Ptr). count-append p z.free_pages (free_nodes addrs zs) in
      (
        ZoneAt-Changed a z (other a (ground arith)) (λ p l. apart p (ground (arith, split p))) h.0,
        ZonesAt-Changed addrs zs (λ b l. other b (omega arith))
            (λ p l. apart p (ground (arith, split p))) h.1,
      )

pub Changed-widen :
    (zones nodes zones' nodes' : List Ptr) (m m' : Memory)
    → ((a : Ptr) → count a zones ≤ count a zones')
    → ((p : Ptr) → count p nodes ≤ count p nodes')
    → Changed zones nodes m m'
    → Changed zones' nodes' m m'
Changed-widen zones nodes zones' nodes' m m' more_zones more_nodes c = record {
  links = λ p out. c.links p (omega (arith, more_nodes p));
  free_count = λ a out. c.free_count a (omega (arith, more_zones a));
  base = c.base;
  size = c.size;
  page_array = c.page_array;
}

pub Changed-refl : (zones nodes : List Ptr) (m : Memory) → Changed zones nodes m m
Changed-refl zones nodes m = record {
  links = λ p out. (refl, refl);
  free_count = λ a out. refl;
  base = refl;
  size = refl;
  page_array = refl;
}

pub on_links-run :
    {A : Type 0} (c : Cmd A) (m : Memory) (a : A) (l : Links)
    → c m.links ≡ some (a, l)
    → on_links c m ≡ some (a, record m { links = l })
on_links-run c m a l e = rw (on_links, e) refl

-- No free page is `NULL`.
pub ZonesAt-real :
    (m : Memory) (addrs : List Ptr) (zs : List Zone)
    → ZonesAt m addrs zs
    → count null (free_nodes addrs zs) ≡ 0
ZonesAt-real m [] [] h = refl
ZonesAt-real m [] (z ∷ zs) h = absurd h
ZonesAt-real m (a ∷ addrs) [] h = absurd h
ZonesAt-real m (a ∷ addrs) (z ∷ zs) h = ground (
  arith,
  h.0.free_pages.real,
  count-append null z.free_pages (free_nodes addrs zs),
  ZonesAt-real m addrs zs h.1,
)
