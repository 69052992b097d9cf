-- ===== src/Pmm/Linked/Arrays.antt =====
-- pmm.c: the array of pages of a new zone, and the zones with one more.
use rix_draft.Base.{
  ℕ, zero, suc, ◌+◌, ◌-◌, ◌^◌, ◌*◌, some, ◌/◌, ◌≤◌, ◌<◌, ◌≡◌, refl, List, [], ◌∷◌, ◌++◌, Bool, true,
  ◌&&◌, ltb, leb, u64, if◌then◌else◌, count, count-append, arith,
}
use rix_draft.Balloc.{balloc}
use rix_draft.LinkedList.{Ptr, Links, put}
use rix_draft.Pmm.{
  Zone, Pmm, Status, no_error, page_size, page_bytes, clear_flags, is_spared, is_memory,
  nodes_spared, zones_spared,
}
use rix_draft.CString.Fill.{written}
use rix_draft.LinkedList.Ring.{Spared}
use rix_draft.Pmm.Linked.Add.{clear_links, clear_memory}
use rix_draft.Pmm
use rix_draft.Pmm.Alloc.{new_zone}
use rix_draft.Pmm.Invariant.{pages_from, add_pages_lem}
use rix_draft.Pmm.Linked.{Memory, free_list}
use rix_draft.Pmm.Linked.Rep.{ZoneAt, ZonesAt, free_nodes}

-- The addresses of an array.
abbrev pub bytes_of : (array bytes : ℕ) → List Ptr
bytes_of array zero = []
bytes_of array (suc n) = (array + n) ∷ bytes_of array n

-- Whether an address lies in the array.
abbrev pub in_array : (array bytes p : ℕ) → Bool
in_array array bytes p = leb array p && ltb p (array + bytes)

pub count-bytes_of :
    (array n p : ℕ) → count p (bytes_of array n) ≡ (if in_array array n p then 1 else 0)
count-bytes_of array zero p = ground arith
count-bytes_of array (suc n) p = ground (arith, count-bytes_of array n p)

-- The pages of an array are different addresses of it.
pub count-pages_from :
    (array index left p : ℕ)
    → count p (pages_from array index left) ≤ (
        if leb (array + index * page_bytes) p && ltb p (array + (index + left) * page_bytes)
        then 1
        else 0)
count-pages_from array index zero p = ground arith
count-pages_from array index (suc left) p =
    ground (arith, count-pages_from array (index + 1) left p)

-- The nodes with a link that the `memset` clears, for an array at 8 or above.
abbrev pub touched : (array bytes : ℕ) → List Ptr
touched array bytes = bytes_of (array - 8) (array + bytes - (array - 8))

pub count-touched :
    (array bytes p : ℕ) → is_spared array bytes 16 p ≡ true → count p (touched array bytes) ≡ 0
count-touched array bytes p out =
    ground (arith, count-bytes_of (array - 8) (array + bytes - (array - 8)) p)

pub clear_links-Spared :
    (array bytes : ℕ) (l : Links) → Spared (touched array bytes) l (clear_links array bytes l)
clear_links-Spared array bytes l p o =
    let inside = count-bytes_of (array - 8) (array + bytes - (array - 8)) p in
    (ground (arith, inside), ground (arith, inside))

-- The fields of zones that the `memset` leaves alone, where those of the zone at `zone` are written.
pub ZonesAt-cleared :
    (m : Memory) (zone c array bytes : ℕ) (l : Links) (addrs : List Ptr) (zs : List Zone)
    → count zone addrs ≡ 0
    → ((a : Ptr) → 1 ≤ count a addrs → is_spared array bytes 64 a ≡ true)
    → ZonesAt (record m { links = clear_links array bytes l }) addrs zs
    → ZonesAt
        (clear_memory array bytes (record m {
          links = l;
          free_count = put m.free_count zone c;
          page_array = put m.page_array zone array;
        }))
        addrs
        zs
ZonesAt-cleared m zone c array bytes l [] [] o away h = h
ZonesAt-cleared m zone c array bytes l [] (z ∷ zs) o away h = h
ZonesAt-cleared m zone c array bytes l (a ∷ addrs) [] o away h = h
ZonesAt-cleared m zone c array bytes l (a ∷ addrs) (z ∷ zs) o away h =
    let out = away a (ground arith) in
    (
      record {
        base = ground (arith, h.0.base);
        size = ground (arith, h.0.size);
        page_array = ground (arith, h.0.page_array);
        free_count = ground (arith, h.0.free_count);
        free_pages = h.0.free_pages;
      },
      ZonesAt-cleared m zone c array bytes l addrs zs (ground arith) (λ b on. away b (ground arith))
          h.1,
    )

nodes_spared-all :
    (array bytes : ℕ) (ps : List Ptr)
    → ((p : Ptr) → 1 ≤ count p ps → is_spared array bytes 16 p ≡ true)
    → nodes_spared array bytes ps ≡ true
unfolding nodes_spared
nodes_spared-all array bytes [] away = refl
nodes_spared-all array bytes (p ∷ ps) away =
    rw (away p (ground arith), nodes_spared-all array bytes ps (λ q on. away q (ground arith))) refl

-- Where the `memset` spares the nodes in memory, it does so on sequences.
pub zones_spared-all :
    (array bytes : ℕ) (m : Memory) (addrs : List Ptr) (zs : List Zone)
    → ZonesAt m addrs zs
    → ((p : Ptr) → 1 ≤ count p (free_nodes addrs zs) → is_spared array bytes 16 p ≡ true)
    → zones_spared array bytes zs ≡ true
unfolding zones_spared
zones_spared-all array bytes m [] [] h away = refl
zones_spared-all array bytes m [] (z ∷ zs) h away = absurd h
zones_spared-all array bytes m (a ∷ addrs) [] h away = absurd h
zones_spared-all array bytes m (a ∷ addrs) (z ∷ zs) h away =
    let split = λ (p : Ptr). count-append p z.free_pages (free_nodes addrs zs) in
    rw
      (
        nodes_spared-all array bytes z.free_pages (λ p on. away p (ground (arith, split p))),
        zones_spared-all array bytes m addrs zs h.1 (λ p on. away p (ground (arith, split p))),
      )
      refl

pub ZonesAt-append :
    (m : Memory) (addrs : List Ptr) (zs : List Zone) (a : Ptr) (z : Zone)
    → ZonesAt m addrs zs
    → ZoneAt m a z
    → ZonesAt m (addrs ++ a ∷ []) (zs ++ z ∷ [])
ZonesAt-append m [] [] a z h k = (k, tt)
ZonesAt-append m [] (y ∷ zs) a z h k = absurd h
ZonesAt-append m (b ∷ addrs) [] a z h k = absurd h
ZonesAt-append m (b ∷ addrs) (y ∷ zs) a z h k = (h.0, ZonesAt-append m addrs zs a z h.1 k)

pub free_nodes-append :
    (m : Memory) (addrs : List Ptr) (zs : List Zone) (a : Ptr) (z : Zone) (p : Ptr)
    → ZonesAt m addrs zs
    → count p (free_nodes (addrs ++ a ∷ []) (zs ++ z ∷ []))
      ≡ count p (free_nodes addrs zs) + count p (free_list a ∷ z.free_pages)
free_nodes-append m [] [] a z p h = omega (arith, count-append p z.free_pages [])
free_nodes-append m [] (y ∷ zs) a z p h = absurd h
free_nodes-append m (b ∷ addrs) [] a z p h = absurd h
free_nodes-append m (b ∷ addrs) (y ∷ zs) a z p h = omega (
  arith,
  count-append p y.free_pages (free_nodes addrs zs),
  count-append p y.free_pages (free_nodes (addrs ++ a ∷ []) (zs ++ z ∷ [])),
  free_nodes-append m addrs zs a z p h.1,
)

pub Pmm-add_zone :
    (base size : ℕ) (s : Pmm)
    → ltb 0 size ≡ true
    → size < 2 ^ 44
    → let got = balloc (u64 (size / page_size * page_bytes)) s.boot in
      let reset = written got.0 (u64 (size / page_size * page_bytes)) in
      is_memory got.0 reset ≡ true
      → zones_spared got.0 reset s.zone_list ≡ true
      → Pmm.add_zone base size s
        ≡ some (
          no_error,
          record {
            zone_list = s.zone_list ++ new_zone base size got.0 ∷ [];
            flags = clear_flags got.0 reset s.flags;
            boot = got.1;
          },
        )
unfolding Pmm.add_zone balloc
Pmm-add_zone base size s positive small memory spared =
    let sum : 0 + size / page_size ≡ size / page_size = omega arith in
    rw
      (
        Pmm.add_zone,
        positive,
        memory,
        spared,
        add_pages_lem (size / page_size) 0 (size / page_size) _ (omega arith) (omega arith),
        sum,
      )
      refl

-- A node that the `memset` spares is none of the pages of the array.
pub page_outside :
    (array bytes frames a : ℕ)
    → frames * page_bytes ≤ bytes
    → is_spared array bytes 16 a ≡ true
    → (k : ℕ) → k < 0 + frames
    → count (array + k * page_bytes) (a ∷ []) ≡ 0
page_outside array bytes frames a fits out k high = ground arith

pub zone_counted :
    (zone : Ptr) (xs nodes : List Ptr)
    → 1 ≤ count (free_list zone) xs + count (free_list zone) (free_list zone ∷ nodes)
zone_counted zone xs nodes = ground arith
