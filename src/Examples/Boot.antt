-- ===== src/Examples/Boot.antt =====
-- init.c, platform.c, processor.c: the theorems about the boot sequence at concrete states.
use rix_draft.Base.{ℕ, ◌+◌, ◌≡◌, refl, List, [], ◌∷◌, some, ◌==◌, if◌then◌else◌, arith}
use rix_draft.Init.{Hook, Boot, kernel_init_upto}
use rix_draft.Init.Upto.{kernel_init_upto_twice}
use rix_draft.Pmm.{Pmm}
use rix_draft.Pmm.Invariant.{Counted, total_free}
use rix_draft.Platform.{MmapEntry, BootState, PhysZone}
use rix_draft.Platform.Start.{platform_init, platform_init_lem}
use rix_draft.Kernel.{Kernel, kmain}
use rix_draft.Kernel.Start.{Booted, kmain_lem}
use rix_draft.Processor.{World, Owned, pset_remove_thread, pset_remove_thread-Owned}

abbrev hook : ℕ → ℕ → Hook
hook stage id = record { stage = stage; priority = 0; hook = id }

abbrev boot : Boot
boot = record { hooks = hook 1 10 ∷ hook 3 11 ∷ hook 5 12 ∷ []; stage = 0; log = [] }

kernel_init_twice_example : kernel_init_upto 5 (kernel_init_upto 2 boot) ≡ kernel_init_upto 5 boot
kernel_init_twice_example = kernel_init_upto_twice 2 5 boot (omega arith)

-- A region that begins off a page boundary.
abbrev region : PhysZone
region = record { base = 0x10_0800; size = 0x3000 }

abbrev empty : Pmm
empty = record {
  zone_list = [];
  flags = λ p. 0;
  boot = record { boot_alloc_start = 0x20_0000; boot_alloc_end = 0x20_0000 };
}

-- Every set is empty but set 1, which has the thread 5.
abbrev world : World
world = record {
  sets = λ p. record {
    processor_list = [];
    processor_count = 0;
    threads = if p == 1 then 5 ∷ [] else [];
    thread_count = if p == 1 then 1 else 0;
    tasks = [];
    task_count = 0;
  };
  processor_pset = λ p. 0;
  thread_pset = λ t. if t == 5 then 1 else 0;
}

world-Owned : Owned world
world-Owned pset ne = record {
  processors = refl;
  threads = ground arith;
  processor_owner = λ p h. absurd (omega (arith, h));
  thread_owner = λ t h. ground arith;
}

pset_remove_thread_example :
    Owned (pset_remove_thread 1 5 world) × ((pset_remove_thread 1 5 world).thread_pset 5 ≡ 0)
pset_remove_thread_example =
    pset_remove_thread-Owned 1 5 world world-Owned (omega arith) refl (omega arith)

-- A map with low memory, a reserved region, and two regions of high memory.
abbrev memory_map : List MmapEntry
memory_map =
    record { addr = 0; len = 0x9_f000; type = 1 }
    ∷ record { addr = 0x10_0000; len = 0x3000; type = 1 }
    ∷ record { addr = 0x20_0000; len = 0x1000; type = 2 }
    ∷ record { addr = 0x30_0000; len = 0x2800; type = 1 }
    ∷ []

abbrev blank : PhysZone
blank = record { base = 0; size = 0 }

abbrev bst : BootState
bst = record {
  mem_lower = 0;
  mem_high_zones =
      blank ∷ blank ∷ blank ∷ blank ∷ blank ∷ blank ∷ blank ∷ blank ∷ blank ∷ blank ∷ [];
  num_high_zones = 0;
}

platform_init_example :
    (s' : Pmm) × (platform_init (memory_map ∷ []) bst empty ≡ some s')
    × Counted s'.zone_list
    × (total_free s'.zone_list ≡ 0 + 5)
platform_init_example =
    platform_init_lem memory_map bst empty refl refl (omega arith)
      ((omega arith), ((omega arith), tt)) (record { counted = tt; below = tt; real = omega arith })
      (omega arith)

-- The kernel before `kmain`, with two hooks, the second one at an earlier stage.
abbrev kernel : Kernel
kernel = record {
  table = λ i. if i == 0 then hook 5 12 else hook 2 11;
  boot = record { hooks = []; stage = 0; log = [] };
  setup = record {
    machine = record {
      cr0 = 0x8000_0001;
      cr2 = 0;
      cr3 = 0x1000;
      cr4 = 0x20;
      msr = λ id. 0;
      fs = λ o. 0;
      gs = λ o. 0;
      answer = λ leaf csel. record { eax = 0x3024; ebx = 0; ecx = 0; edx = 0 };
    };
    paddr_width = 0;
    vaddr_width = 0;
  };
  screen = record { cur_x = 0; cur_y = 0; video = λ i. 0 };
  board = bst;
  pmm = empty;
}

kmain_example :
    (k' : Kernel) × (kmain (memory_map ∷ []) 0x4000 2 kernel ≡ some k')
    × Booted memory_map 2 kernel k'
kmain_example =
    kmain_lem memory_map 0x4000 2 kernel
      (record {
        places = refl;
        zones = refl;
        can_add = record { counted = tt; below = tt; real = omega arith };
        log = refl;
        column = refl;
        row = omega arith;
      })
      (omega arith) ((omega arith), ((omega arith), tt)) (omega arith)
