-- ===== src/Platform.antt =====
-- platform.c, multiboot2.h, vm.c: the memory map of the boot loader, the zones that are made of it,
-- and the marking of the pages that are in use. A tag of the boot information that is no memory map
-- changes nothing, so the tags are the list of the memory maps. The arrays of ten zones are lists;
-- more zones than ten are a write out of bounds, `none`.
pub mod Zones
pub mod InUse
pub mod Preheap
pub mod Start
use rix_draft.Base.{
  ℕ, zero, suc, ◌+◌, ◌-◌, ◌*◌, ◌/◌, Bool, true, false, ◌&&◌, Option, none, some, List, [], ◌∷◌,
  ◌++◌, u32, u64, bit_and, ltb, leb, ◌==◌, if◌then◌else◌, get_elem?, set, length, sub64,
}
use rix_draft.Align.{round_up, round_down}
use rix_draft.Pmm.{Pmm, add_zone}
use rix_draft.Pmm.Range.{alloc_range}

-- `multiboot2_mmap_entry_t`
pub record MmapEntry : Type 0 where
  pub addr : ℕ
  pub len : ℕ
  pub type : ℕ

-- `phys_zone_t`
pub record PhysZone : Type 0 where
  pub base : ℕ
  pub size : ℕ

-- `boot_state_t`
pub record BootState : Type 0 where
  pub mem_lower : ℕ
  pub mem_high_zones : List PhysZone
  pub num_high_zones : ℕ

-- One round of the loop over the entries of a map; `count` is the place for the next zone.
unfoldable pub read_entry : MmapEntry → ℕ → BootState → Option (ℕ × BootState)
read_entry e count b =
    let lower = if e.addr == 0 then u32 e.len else b.mem_lower in
    if (e.type == 1) && leb 0x10_0000 e.addr
    then if ltb count 10
      then some (
        count + 1,
        record {
          mem_lower = lower;
          mem_high_zones = set b.mem_high_zones count (record { base = e.addr; size = e.len });
          num_high_zones = b.num_high_zones + 1;
        },
      )
      else none
    else some (count, record b { mem_lower = lower })

unfoldable pub read_map : List MmapEntry → ℕ → BootState → Option BootState
unfolding read_entry
read_map [] count b = some b
read_map (e ∷ es) count b = elim (read_entry e count b) [
  | none ↦ none
  | some (count', b') ↦ read_map es count' b'
]

-- `init_boot_state` over the memory maps: each map starts at the first place again.
unfoldable pub init_boot_state : List (List MmapEntry) → BootState → Option BootState
unfolding read_map
init_boot_state [] b = some b
init_boot_state (map ∷ maps) b = elim (read_map map 0 b) [
  | none ↦ none
  | some b' ↦ init_boot_state maps b'
]

-- The base and the size that `pmm_zone_init` gives to a zone.
unfoldable pub zone_of : PhysZone → PhysZone
zone_of z = record { base = round_up z.base 4096; size = round_down z.size 4096 }

-- The loop of `pmm_zone_init`. The status of `pmm_add_zone` is not looked at. `none` is a call of
-- `pmm_add_zone` that faults or does not return.
unfoldable pub add_zones : List PhysZone → Pmm → Option Pmm
unfolding zone_of add_zone
add_zones [] s = some s
add_zones (z ∷ zs) s = elim (add_zone (zone_of z).base (zone_of z).size s) [
  | none ↦ none
  | some (status, s') ↦ add_zones zs s'
]

-- The loop of `mark_pages_in_use`, for `left` more pages. `va` does not change from round to round.
-- What the page tables answer is a parameter, `none` for an address that is not mapped.
unfoldable pub mark_loop : (ℕ → Option ℕ) → ℕ → ℕ → Pmm → Option Pmm
mark_loop query zero va s = some s
mark_loop query (suc left) va s = elim (query va) [
  | none ↦ mark_loop query left va s
  | some pa ↦ elim (alloc_range pa 1 none s) [
    | none ↦ none
    | some (n, list, s') ↦ mark_loop query left va s'
  ]
]

unfoldable pub mark_pages_in_use : (ℕ → Option ℕ) → (va len : ℕ) → Pmm → Option Pmm
unfolding mark_loop
mark_pages_in_use query va len s =
    let start = round_down va 4096 in
    let bytes = round_up (u64 (len + bit_and start 0xfff)) 4096 in
    mark_loop query (bytes / 4096) start s

-- What `vm_init_preheap` does behind its call of `vmm_init_preheap`, for the symbols `__code_start` and
-- `__end`.
unfoldable pub mark_kernel_pages : (ℕ → Option ℕ) → (code_start end_symbol : ℕ) → Pmm → Option Pmm
unfolding mark_pages_in_use
mark_kernel_pages query code_start end_symbol s =
    elim (mark_pages_in_use query code_start (sub64 end_symbol code_start) s) [
      | none ↦ none
      | some s' ↦
          let start = s'.boot.boot_alloc_start in
          let len = sub64 s'.boot.boot_alloc_end start in
          if start == s'.boot.boot_alloc_end then some s' else mark_pages_in_use query start len s'
    ]
