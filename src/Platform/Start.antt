-- ===== src/Platform/Start.antt =====
-- platform.c: `pmm_zone_init` on the state that `init_boot_state` leaves, and `platform_init` less its
-- two calls that only print.
use mathlib.Core.List.{append-nil, append_assoc}
use rix_draft.Base.{
  ℕ, zero, suc, ◌+◌, ◌^◌, ◌≤◌, ◌≡◌, List, [], ◌∷◌, ◌++◌, Option, none, some, Bool, true, false,
  ◌&&◌, leb, ◌==◌, if◌then◌else◌, set, length, u32, arith, refl, ap, lt→ltb, length-append,
  Bool-cases, inl, inr,
}
use rix_draft.Pmm.{Pmm}
use rix_draft.Pmm.Invariant.{Counted, total_free}
use rix_draft.Platform.{
  MmapEntry, PhysZone, BootState, read_entry, read_map, init_boot_state, add_zones,
}
use rix_draft.Platform.Zones.{pages_of, Fits, CanAdd, array_room, add_zones_lem}

module _ {ℓ} {A : Type ℓ} where
  -- The first elements; `none` where there are fewer.
  abbrev pub first : ℕ → List A → Option (List A)
  first zero xs = some []
  first (suc n) [] = none
  first (suc n) (x ∷ xs) = elim (first n xs) [ none ↦ none | some ys ↦ some (x ∷ ys) ]

  first-append : (ys zs : List A) → first (length ys) (ys ++ zs) ≡ some ys
  first-append [] zs = refl
  first-append (y ∷ ys) zs = rw (first-append ys zs) refl

  set-append :
      (ys : List A) (z : A) (zs : List A) (v : A)
      → set (ys ++ z ∷ zs) (length ys) v ≡ (ys ++ v ∷ []) ++ zs
  set-append [] z zs v = refl
  set-append (y ∷ ys) z zs v = ap (λ t. y ∷ t) (set-append ys z zs v)

-- `pmm_zone_init`. More zones than the array holds are a read out of bounds, `none`.
unfoldable pub pmm_zone_init : BootState → Pmm → Option Pmm
unfolding add_zones
pmm_zone_init b s = elim (first b.num_high_zones b.mem_high_zones) [
  | none ↦ none
  | some zones ↦ add_zones zones s
]

unfoldable pub platform_init : (maps : List (List MmapEntry)) → BootState → Pmm → Option Pmm
unfolding init_boot_state pmm_zone_init
platform_init maps b s = elim (init_boot_state maps b) [
  | none ↦ none
  | some b' ↦ pmm_zone_init b' s
]

-- The memory of a map that the kernel manages: what is available from 1 MiB on.
abbrev pub high_memory : List MmapEntry → List PhysZone
high_memory [] = []
high_memory (e ∷ es) =
    let rest = high_memory es in
    if (e.type == 1) && leb 0x10_0000 e.addr
    then record { base = e.addr; size = e.len } ∷ rest
    else rest

-- The array has ten places, `count` of them are filled, and the state counts them.
record Filled (count : ℕ) (b : BootState) (zones : List PhysZone) : Type 0 where
  rest : List PhysZone
  filled : b.mem_high_zones ≡ zones ++ rest
  counted : length zones ≡ count
  number : b.num_high_zones ≡ count
  places : length zones + length rest ≡ 10

abbrev is_high : MmapEntry → Bool
is_high e = (e.type == 1) && leb 0x10_0000 e.addr

module _ (e : MmapEntry) (count : ℕ) (b : BootState) (zones : List PhysZone) where
  lower : ℕ
  lower = if e.addr == 0 then u32 e.len else b.mem_lower

  zone : PhysZone
  zone = record { base = e.addr; size = e.len }

  read_entry-low :
      Filled count b zones
      → is_high e ≡ false
      → (b' : BootState) × (read_entry e count b ≡ some (count, b')) × Filled count b' zones
  unfolding read_entry lower
  read_entry-low f low = (
    record b { mem_lower = lower },
    rw low refl,
    record {
      rest = f.rest;
      filled = f.filled;
      counted = f.counted;
      number = f.number;
      places = f.places;
    },
  )

  read_entry-high :
      (rest : List PhysZone)
      → b.mem_high_zones ≡ zones ++ rest
      → length zones ≡ count
      → b.num_high_zones ≡ count
      → length zones + length rest ≡ 10
      → is_high e ≡ true
      → count + 1 ≤ 10
      → (b' : BootState) × (read_entry e count b ≡ some (count + 1, b'))
        × Filled (count + 1) b' (zones ++ zone ∷ [])
  unfolding read_entry lower zone
  read_entry-high [] filled counted number places high room = absurd (omega arith)
  read_entry-high (z ∷ rest) filled counted number places high room = (
    record {
      mem_lower = lower;
      mem_high_zones = set b.mem_high_zones count zone;
      num_high_zones = b.num_high_zones + 1;
    },
    rw (high, lt→ltb count 10 (omega arith)) refl,
    record {
      rest = rest;
      filled = rw (filled, ← counted) (set-append zones z rest zone);
      counted = omega (arith, length-append zones (zone ∷ []));
      number = omega arith;
      places = omega (arith, length-append zones (zone ∷ []));
    },
  )

read_map-Filled :
    (es : List MmapEntry) (count : ℕ) (b : BootState) (zones : List PhysZone)
    → Filled count b zones
    → count + length (high_memory es) ≤ 10
    → (b' : BootState) × (read_map es count b ≡ some b')
      × Filled (count + length (high_memory es)) b' (zones ++ high_memory es)
unfolding read_map zone
read_map-Filled [] count b zones f room =
    let sum : count + 0 ≡ count = omega arith in (b, refl, rw (sum, append-nil) f)
read_map-Filled (e ∷ es) count b zones f room = elim (Bool-cases (is_high e)) [
  | inl high ↦
      let tail : high_memory (e ∷ es) ≡ zone e count b zones ∷ high_memory es = rw high refl in
      let room' : count + suc (length (high_memory es)) ≤ 10 = rw tail at room in
      let (b1, run1, f1) =
        read_entry-high e count b zones f.rest f.filled f.counted f.number f.places high
          (omega arith) in
      let (b2, run2, f2) =
        read_map-Filled es (count + 1) b1 (zones ++ zone e count b zones ∷ []) f1 (omega arith) in
      let sum : count + suc (length (high_memory es)) ≡ count + 1 + length (high_memory es) =
        omega arith in
      rw (tail, sum) (b2, rw (read_map, run1, run2) refl, rw append_assoc at f2)
  | inr low ↦
      let tail : high_memory (e ∷ es) ≡ high_memory es = rw low refl in
      let (b1, run1, f1) = read_entry-low e count b zones f low in
      let (b2, run2, f2) = read_map-Filled es count b1 zones f1 (rw tail at room) in
      rw tail (b2, rw (read_map, run1, run2) refl, f2)
]

-- With one memory map that has at most ten regions of high memory, each below 16 TiB, whose arrays of
-- pages fit twice, with 16 bytes of padding each, in the memory behind the end of the boot allocator,
-- `platform_init` reaches its end. A page is free then for each whole page of these regions, besides those free before, and every
-- zone counts its free pages. The state before has the ten places and no region, and is one in which
-- zones can be added.
pub platform_init_lem :
    (map : List MmapEntry) (b : BootState) (s : Pmm)
    → length b.mem_high_zones ≡ 10
    → b.num_high_zones ≡ 0
    → length (high_memory map) ≤ 10
    → Fits (high_memory map)
    → CanAdd s
    → s.boot.boot_alloc_end + array_room (high_memory map) ≤ 2 ^ 64
    → (s' : Pmm) × (platform_init (map ∷ []) b s ≡ some s')
      × Counted s'.zone_list
      × (total_free s'.zone_list ≡ total_free s.zone_list + pages_of (high_memory map))
unfolding platform_init init_boot_state pmm_zone_init
platform_init_lem map b s ten fresh few fits can room =
    let empty : Filled 0 b [] = record {
      rest = b.mem_high_zones;
      filled = refl;
      counted = refl;
      number = fresh;
      places = omega (arith, ten);
    } in
    let (b', run, f) = read_map-Filled map 0 b [] empty (omega (arith, few)) in
    let number : b'.num_high_zones ≡ length (high_memory map) = omega (arith, f.number) in
    let zones : first b'.num_high_zones b'.mem_high_zones ≡ some (high_memory map) =
      rw (number, f.filled) (first-append (high_memory map) f.rest) in
    let (s', added, counted, free) = add_zones_lem (high_memory map) s can fits room in
    (s', rw (platform_init, init_boot_state, run, pmm_zone_init, zones) added, counted, free)
