-- ===== src/Threads.antt =====
-- thread.c and cpu_data.c: the data of the boot processor, and the list of all threads with the thread
-- that boots. `create_bootstrap_thread` reads
-- `get_current_cpu_number` and does not use it.
use rix_draft.Base.{
  ℕ, ◌≡◌, ◌≢◌, [], ◌∷◌, Option, none, some, ◌==◌, if◌then◌else◌, refl, arith, ==_ne, true, ◌∙◌, u32,
}
use rix_draft.Machine.{Machine, x86_get_gs_offset}
use rix_draft.LinkedList.{Ptr, null, Links, list_init, list_add}
use rix_draft.LinkedList.Ring.{Ring, Spared}
use rix_draft.LinkedList.Insert.{Ring-list_init, Ring-list_add}

-- The links of all nodes, `thread_count`, `cpu_data_ptr`, and the `cpu_processor` field of the
-- structures of that type.
pub record Threads : Type 0 where
  pub links : Links
  pub thread_count : ℕ
  pub cpu_data_ptr : ℕ → Ptr
  pub cpu_processor : Ptr → Ptr

-- The addresses of the globals, and where in a processor its idle thread has its node.
pub record Globals : Type 0 where
  pub thread_list : Ptr
  pub boot_cpu : Ptr
  pub boot_cpu_data : Ptr
  pub bsp : Ptr
  pub idle_thread : Ptr → Ptr

-- The word at `gs`, which is what the field of the processor's own data holds. It is not the address of
-- the data.
unfoldable pub get_current_cpu_data : Machine → Ptr
unfolding x86_get_gs_offset
get_current_cpu_data m = x86_get_gs_offset 0 m

-- `cpu_current_thread` comes behind a 32-bit field, at a multiple of 8.
unfoldable pub get_current_thread : Machine → Ptr
unfolding x86_get_gs_offset
get_current_thread m = x86_get_gs_offset 8 m

unfoldable pub get_current_cpu_number : Machine → ℕ
unfolding x86_get_gs_offset
get_current_cpu_number m = u32 (x86_get_gs_offset 0 m)

-- Empty bodies.
unfoldable pub secondary_cpus_init : Threads → Threads
secondary_cpus_init s = s

unfoldable pub thread_queue_enqueue : (t : Ptr) → Threads → Threads
thread_queue_enqueue t s = s

unfoldable pub thread_join : (t : Ptr) (timeout : ℕ) → Threads → Threads
thread_join t timeout s = s

module _ (g : Globals) where
  -- Of the copy of the structure, the field that is used is kept.
  unfoldable pub boot_cpu_init : Threads → Threads
  boot_cpu_init s =
      let set : Ptr → Ptr = λ p. if p == g.boot_cpu_data then g.bsp else s.cpu_processor p in
      record s {
        cpu_processor = λ p. if p == g.boot_cpu then set g.boot_cpu_data else set p;
        cpu_data_ptr = λ cpu. if cpu == 0 then g.boot_cpu else s.cpu_data_ptr cpu;
      }

  unfoldable pub get_cpu_data : (cpu : ℕ) → Threads → Ptr
  get_cpu_data cpu s = s.cpu_data_ptr cpu

  -- `t` is the node of the thread.
  unfoldable pub create_bootstrap_thread : (t : Ptr) → Threads → Option Threads
  create_bootstrap_thread t s = elim (list_add g.thread_list t s.links) [
    | none ↦ none
    | some (u, m) ↦ some (record s { links = m })
  ]

  unfoldable pub thread_init_early : Threads → Option Threads
  unfolding boot_cpu_init get_cpu_data create_bootstrap_thread
  thread_init_early s = elim (list_init g.thread_list s.links) [
    | none ↦ none
    | some (u, m) ↦
        let s' = boot_cpu_init (record s { links = m }) in
        let cpu = get_cpu_data 0 s' in
        if cpu == null
        then none
        else create_bootstrap_thread (g.idle_thread (s'.cpu_processor cpu)) s'
  ]

  -- `thread_init_early` leaves one thread in the list of all threads, the idle thread of the boot
  -- processor, and the data of processor 0 names that processor. `thread_count` stays as it was. The
  -- list, the data and the node of the thread are not `NULL`, and the node is not the list.
  pub thread_init_early_lem :
      (s : Threads)
      → g.thread_list ≢ null
      → g.boot_cpu ≢ null
      → g.idle_thread g.bsp ≢ null
      → g.idle_thread g.bsp ≢ g.thread_list
      → (s' : Threads) × (thread_init_early s ≡ some s')
        × Ring s'.links g.thread_list (g.idle_thread g.bsp ∷ [])
        × Spared (g.idle_thread g.bsp ∷ g.thread_list ∷ []) s.links s'.links
        × (s'.cpu_processor (s'.cpu_data_ptr 0) ≡ g.bsp)
        × (s'.thread_count ≡ s.thread_count)
  unfolding thread_init_early boot_cpu_init get_cpu_data create_bootstrap_thread
  thread_init_early_lem s list cpu node apart =
      let (u, m1, run1, made) = Ring-list_init s.links g.thread_list list in
      let (v, m2, run2, added) =
        Ring-list_add m1 g.thread_list (g.idle_thread g.bsp) [] made.0 node (ground arith) in
      let s' = record (boot_cpu_init s) { links = m2 } in
      let same : (g.boot_cpu == g.boot_cpu) ≡ true = ground arith in
      let named : (g.boot_cpu_data == g.boot_cpu_data) ≡ true = ground arith in
      (
        s',
        simp (
          thread_init_early,
          create_bootstrap_thread,
          boot_cpu_init,
          get_cpu_data,
          if◌then◌else◌,
          run1,
          ==_ne g.boot_cpu null cpu,
          same,
          named,
          run2,
        ),
        added.0,
        λ p h.
            let first = made.1 p (ground arith) in
            let second = added.1 p (ground arith) in (second.0 ∙ first.0, second.1 ∙ first.1),
        ground arith,
        refl,
      )
