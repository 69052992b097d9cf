-- ===== src/Kernel/Start.antt =====
-- main.c: what the kernel has done when `kmain` reaches its loop.
use rix_draft.Base.{
  if◌then◌else◌, ◌==◌, ℕ, ◌+◌, ◌*◌, ◌/◌, ◌%◌, ◌^◌, ◌≤◌, ◌<◌, ◌≡◌, refl, none, some, Option-cases,
  inl, inr, List, [], ◌∷◌, map, length, not, leb, ap, ◌∙◌, sym,
}
use rix_draft.QSort.Moves.{Moved}
use rix_draft.QSort.Order.{SortedOn}
use rix_draft.Init.{Boot, hook_cmp, hooks_from, kernel_init_upto}
use rix_draft.Init.Upto.{entry}
use rix_draft.Init.Hooks.{select, init_hooks_init-kernel_init_upto}
use rix_draft.Mmu.Setup.{x86_mmu_init_lem}
use rix_draft.Console.{welcome_text, platform_init_console}
use rix_draft.Console.Text.{shown_at, build_line, platform_init_console_lem}
use rix_draft.Platform.{MmapEntry, PhysZone, BootState, init_boot_state}
use rix_draft.Platform.Zones.{pages_of, Fits, CanAdd, array_room}
use rix_draft.Platform.Start.{high_memory, pmm_zone_init, platform_init_lem}
use rix_draft.Platform
use rix_draft.Pmm.{Pmm}
use rix_draft.Pmm.Invariant.{Counted, total_free}
use rix_draft.Kernel.{Kernel, stage_vm, arch_init, platform_init, kmain}

-- What `kmain` finds: the array of zones is empty, zones can be added to the manager, no hook ran, and
-- the cursor is at the left, above the last row.
pub record IsFresh (k : Kernel) : Type 0 where
  pub places : length k.board.mem_high_zones ≡ 10
  pub zones : k.board.num_high_zones ≡ 0
  pub can_add : CanAdd k.pmm
  pub log : k.boot.log ≡ []
  pub column : k.screen.cur_x ≡ 0
  pub row : k.screen.cur_y < 255

-- What it leaves, for `num_hooks` hooks and one memory map.
pub record Booted (map_entries : List MmapEntry) (num_hooks : ℕ) (k k' : Kernel) : Type 0 where
  pub moved : Moved 0 num_hooks k.table k'.table
  pub sorted : SortedOn hook_cmp 0 num_hooks k'.table
  pub hooks : k'.boot ≡ record {
    hooks = select (λ h. not (leb h.stage stage_vm)) (hooks_from k'.table 0 num_hooks);
    stage = stage_vm;
    log = map entry (select (λ h. leb h.stage stage_vm) (hooks_from k'.table 0 num_hooks));
  }
  pub cr0 :
      (bit : ℕ)
      → k'.setup.machine.cr0 / 2 ^ bit % 2
        ≡ (if bit == 16 then 1 else k.setup.machine.cr0 / 2 ^ bit % 2)
  pub paddr_width : k'.setup.paddr_width ≡ (k.setup.machine.answer 0x8000_0008 0).eax % 256
  pub vaddr_width : k'.setup.vaddr_width ≡ (k.setup.machine.answer 0x8000_0008 0).eax / 256 % 256
  pub counted : Counted k'.pmm.zone_list
  pub free :
      total_free k'.pmm.zone_list ≡ total_free k.pmm.zone_list + pages_of (high_memory map_entries)
  pub shown :
      (i : ℕ)
      → k'.screen.video i
        ≡ shown_at welcome_text 0x0f
            ((k.screen.cur_y + 1) * 80)
            i
            (shown_at build_line 0x0f (k.screen.cur_y * 80) i (k.screen.video i))

-- The two calls of `platform_init` that set up the memory.
platform_init-zones :
    (map : List MmapEntry) (k : Kernel) (s' : Pmm)
    → Platform.Start.platform_init (map ∷ []) k.board k.pmm ≡ some s'
    → (board : BootState) × (platform_init (map ∷ []) k
        ≡ some (record k { screen = platform_init_console k.screen; board = board; pmm = s' }))
unfolding Platform.Start.platform_init platform_init
platform_init-zones map k s' e = elim (Option-cases (init_boot_state (map ∷ []) k.board)) [
  | inl n ↦
      let stopped : Platform.Start.platform_init (map ∷ []) k.board k.pmm ≡ none =
        rw (Platform.Start.platform_init, n) refl in
      absurd (cc (sym stopped ∙ e))
  | inr (board, f) ↦
      let zones : pmm_zone_init board k.pmm ≡ some s' =
        let step : Platform.Start.platform_init (map ∷ []) k.board k.pmm
            ≡ pmm_zone_init board k.pmm =
          rw (Platform.Start.platform_init, f) refl in
        sym step ∙ e in
      (board, rw (platform_init, f, zones) refl)
]

-- `kmain` reaches its loop, from a fresh state and with one memory map that has at most ten regions
-- of high memory, each below 16 TiB, whose arrays of pages fit twice, with 16 bytes of padding each, in
-- the memory behind the end of the boot allocator. The table of hooks is in order, with the same hooks, and the hooks up to the stage of the virtual memory have run, each once and in that
-- order. Bit 16 of CR0, which protects pages from writes by the kernel, is set and no other bit of it
-- changed, and the widths of the addresses are those that the processor answers. A page is free for
-- each whole page of the high memory, besides those free before, and the greeting stands on the
-- screen.
pub kmain_lem :
    (entries : List MmapEntry) (hooks_address num_hooks : ℕ) (k : Kernel)
    → IsFresh k
    → length (high_memory entries) ≤ 10
    → Fits (high_memory entries)
    → k.pmm.boot.boot_alloc_end + array_room (high_memory entries) ≤ 2 ^ 64
    → (k' : Kernel) × (kmain (entries ∷ []) hooks_address num_hooks k ≡ some k')
      × Booted entries num_hooks k k'
unfolding kmain arch_init
kmain_lem entries hooks_address num_hooks k f few fits room =
    let (table, run, moved, sorted, hooks) =
      init_hooks_init-kernel_init_upto hooks_address num_hooks k.table in
    let (pmm, zones, counted, free) =
      platform_init_lem entries k.board k.pmm f.places f.zones few fits f.can_add room in
    let boot : Boot = record k.boot { hooks = hooks_from table 0 num_hooks } in
    let ready : Kernel = record k { table = table; boot = kernel_init_upto stage_vm boot } in
    let (board, done) = platform_init-zones entries (arch_init ready) pmm zones in
    let screen = platform_init_console_lem k.screen f.column f.row in
    let machine = x86_mmu_init_lem k.setup 0 in
    let final : Kernel = record (arch_init ready) {
      screen = platform_init_console k.screen;
      board = board;
      pmm = pmm;
    } in
    (
      final,
      rw (kmain, run) done,
      record {
        moved = moved;
        sorted = sorted;
        hooks =
            ap
              (λ l.
                kernel_init_upto stage_vm
                  (record { hooks = hooks_from table 0 num_hooks; stage = k.boot.stage; log = l }))
              f.log
            ∙ hooks stage_vm k.boot.stage;
        cr0 = λ bit. (x86_mmu_init_lem k.setup bit).0;
        paddr_width = machine.2;
        vaddr_width = machine.3;
        counted = counted;
        free = free;
        shown = screen.2;
      },
    )
