-- ===== src/Kernel.antt =====
-- main.c, arch.c, platform.c: the start of the kernel, from the parts that it calls. What a hook does is in
-- the log only; `init_test1`, the one hook of the code, is empty, and so is `platform_init_debug`. The
-- state is that in which `kmain` reaches its last loop.
pub mod Start
use rix_draft.Base.{ℕ, Option, none, some, List, []}
use rix_draft.Init.{Hook, Boot, hooks_from, init_hooks_init, kernel_init_upto}
use rix_draft.Mmu.Setup.{Setup, x86_mmu_init}
use rix_draft.Console.{Screen, platform_init_console}
use rix_draft.Platform.{MmapEntry, BootState, init_boot_state}
use rix_draft.Platform.Start.{pmm_zone_init}
use rix_draft.Pmm.{Pmm}

-- The state that `kmain` starts from, with the table of the hooks between `__init_hooks_start` and
-- `__init_hooks_end`.
pub record Kernel : Type 0 where
  pub table : ℕ → Hook
  pub boot : Boot
  pub setup : Setup
  pub screen : Screen
  pub board : BootState
  pub pmm : Pmm

-- `INIT_STAGE_VM`
abbrev pub stage_vm : ℕ
stage_vm = 3

unfoldable pub arch_init : Kernel → Kernel
unfolding x86_mmu_init
arch_init k = record k { setup = x86_mmu_init k.setup }

-- The memory maps are those of the tags that the boot loader left.
unfoldable pub platform_init : (maps : List (List MmapEntry)) → Kernel → Option Kernel
unfolding platform_init_console init_boot_state pmm_zone_init
platform_init maps k =
    let shown = platform_init_console k.screen in
    elim (init_boot_state maps k.board) [
      | none ↦ none
      | some board ↦ elim (pmm_zone_init board k.pmm) [
        | none ↦ none
        | some pmm ↦ some (record k { screen = shown; board = board; pmm = pmm })
      ]
    ]

-- `init_hook_cur` is at the first hook when the kernel starts.
unfoldable pub kmain :
    (maps : List (List MmapEntry)) (hooks_address num_hooks : ℕ) → Kernel → Option Kernel
unfolding init_hooks_init kernel_init_upto hooks_from arch_init platform_init
kmain maps hooks_address num_hooks k = elim (init_hooks_init hooks_address num_hooks k.table) [
  | none ↦ none
  | some table ↦
      let boot = record k.boot { hooks = hooks_from table 0 num_hooks } in
      let ready : Kernel = record k { table = table; boot = kernel_init_upto stage_vm boot } in
      platform_init maps (arch_init ready)
]
