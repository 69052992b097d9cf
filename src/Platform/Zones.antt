-- ===== src/Platform/Zones.antt =====
-- platform.c: the zones that are made of the memory map.
use rix_draft.Base.{
  ℕ, ◌+◌, ◌*◌, ◌/◌, ◌%◌, ◌^◌, ◌≤◌, ◌<◌, ◌≡◌, List, [], ◌∷◌, arith, some, refl, inl, inr,
}
use rix_draft.Align.Laws
use rix_draft.Pmm.{Pmm, Status, no_error, invalid_args, page_bytes, add_zone}
use rix_draft.Pmm.Below.{Below}
use rix_draft.Pmm.Invariant.{Counted, total_free}
use rix_draft.Pmm.Alloc.{add_zone_lem}
use rix_draft.Platform.{PhysZone, zone_of, add_zones}

-- A region that begins off a page boundary and is a whole number of pages long gets a zone that ends
-- behind it: its last page is no memory of the region.
pub zone_of-overruns :
    (z : PhysZone)
    → z.base + 4096 ≤ 2 ^ 64
    → z.size < 2 ^ 64
    → z.size % 4096 ≡ 0
    → 0 < z.base % 4096
    → z.base + z.size < (zone_of z).base + (zone_of z).size
unfolding zone_of
zone_of-overruns z fits small whole off =
    let base = Laws.round_bounds 12 52 (omega arith) z.base (omega arith) in
    let size = Laws.round_down_lem 12 52 (omega arith) z.size small in
    omega (arith, base.up_aligned, base.le_up, size)

zone_of-size : (z : PhysZone) → z.size < 2 ^ 64 → (zone_of z).size ≡ z.size / 4096 * 4096
unfolding zone_of
zone_of-size z small = Laws.round_down_lem 12 52 (omega arith) z.size small

abbrev pub pages_of : List PhysZone → ℕ
pages_of [] = 0
pages_of (z ∷ zs) = z.size / 4096 + pages_of zs

-- Regions below 16 TiB, so that the zones have fewer than 2 ^ 32 frames.
abbrev pub Fits : List PhysZone → Type 0
Fits [] = Unit {0}
Fits (z ∷ zs) = (z.size < 2 ^ 44) × Fits zs

-- The memory that the arrays of pages take, and the `memset` behind the last of them.
abbrev pub array_room : List PhysZone → ℕ
array_room [] = 0
array_room (z ∷ zs) = z.size / 4096 * (2 * page_bytes) + 16 + array_room zs

-- A state of the memory manager in which zones can be added: the zones count their free pages, and
-- these lie below the memory that `balloc` gives out next, which does not begin at `NULL`.
pub record CanAdd (s : Pmm) : Type 0 where
  pub counted : Counted s.zone_list
  pub below : Below s.boot.boot_alloc_end s.zone_list
  pub real : 1 ≤ s.boot.boot_alloc_end

-- One zone.
add_zone-CanAdd :
    (base size room : ℕ) (s : Pmm)
    → CanAdd s
    → size < 2 ^ 44
    → s.boot.boot_alloc_end + (size / 4096 * (2 * page_bytes) + 16 + room) ≤ 2 ^ 64
    → (status : Status) × (s' : Pmm) × (add_zone base size s ≡ some (status, s'))
      × CanAdd s'
      × (s'.boot.boot_alloc_end + room ≤ 2 ^ 64)
      × (total_free s'.zone_list ≡ total_free s.zone_list + size / 4096)
add_zone-CanAdd base size room s can small fits =
    elim (add_zone_lem base size s can.counted can.below small can.real (omega arith)) [
      | inl (empty, run) ↦ (invalid_args, s, run, can, omega arith, omega (arith, empty))
      | inr (array, s', run, added) ↦ (
        no_error,
        s',
        run,
        record {
          counted = added.counted;
          below = added.below;
          real = omega (arith, can.real, added.moves);
        },
        omega (arith, added.ends),
        added.total,
      )
    ]

-- `pmm_zone_init` makes a free page of each whole page of the regions, and the zones count their
-- free pages. The regions are below 16 TiB each, and twice their arrays of pages fit in the memory
-- behind the end of the boot allocator.
pub add_zones_lem :
    (zs : List PhysZone) (s : Pmm)
    → CanAdd s
    → Fits zs
    → s.boot.boot_alloc_end + array_room zs ≤ 2 ^ 64
    → (s' : Pmm) × (add_zones zs s ≡ some s')
      × Counted s'.zone_list
      × (total_free s'.zone_list ≡ total_free s.zone_list + pages_of zs)
unfolding add_zones
add_zones_lem [] s can fits room = (s, refl, can.counted, omega arith)
add_zones_lem (z ∷ zs) s can fits room =
    let size = zone_of-size z (omega (arith, fits.0)) in
    let (status, s1, run, can1, left, total) =
      add_zone-CanAdd (zone_of z).base (zone_of z).size (array_room zs) s can
        (omega (arith, fits.0, size)) (omega (arith, size)) in
    let (s2, runs, counted, free) = add_zones_lem zs s1 can1 fits.1 left in
    (s2, rw (add_zones, run) runs, counted, omega (arith, free, total, size))
