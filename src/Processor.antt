-- ===== src/Processor.antt =====
-- processor.h, processor.c: processor sets with their members. The lists of a set are the sequences
-- of their nodes; a processor and a thread are addresses, and the `pset` fields are functions of
-- them, with 0 for `NULL`.
pub mod Bootstrap
use rix_draft.Base.{
  ℕ, ◌+◌, ◌^◌, ◌<◌, ◌≤◌, ◌≡◌, ◌≢◌, List, [], ◌∷◌, u32, ◌==◌, if◌then◌else◌, arith, length, count,
  unlink, length-unlink, count-unlink,
}

-- `struct processor_set`
pub record ProcessorSet : Type 0 where
  pub processor_list : List ℕ
  pub processor_count : ℕ
  pub threads : List ℕ
  pub thread_count : ℕ
  pub tasks : List ℕ
  pub task_count : ℕ

-- The sets by address, and the `pset` fields of the processors and of the threads.
pub record World : Type 0 where
  pub sets : ℕ → ProcessorSet
  pub processor_pset : ℕ → ℕ
  pub thread_pset : ℕ → ℕ

abbrev pub put {ℓ} : {A : Type ℓ} → (ℕ → A) → ℕ → A → ℕ → A
put f p v q = if q == p then v else f q

unfoldable pub pset_init : ℕ → World → World
pset_init pset w = record w {
  sets = put w.sets pset (record {
    processor_list = [];
    processor_count = 0;
    threads = [];
    thread_count = 0;
    tasks = [];
    task_count = 0;
  });
}

unfoldable pub pset_add_processor : (processor pset : ℕ) → World → World
pset_add_processor processor pset w =
    let s = w.sets pset in
    record w {
      sets = put w.sets pset (record s {
        processor_list = processor ∷ s.processor_list;
        processor_count = u32 (s.processor_count + 1);
      });
      processor_pset = put w.processor_pset processor pset;
    }

unfoldable pub pset_remove_processor : (processor pset : ℕ) → World → World
pset_remove_processor processor pset w =
    let s = w.sets pset in
    record w {
      sets = put w.sets pset (record s {
        processor_list = unlink processor s.processor_list;
        processor_count = u32 (s.processor_count + 0xffff_ffff);
      });
      processor_pset = put w.processor_pset processor 0;
    }

unfoldable pub pset_add_thread : (pset thread : ℕ) → World → World
pset_add_thread pset thread w =
    let s = w.sets pset in
    record w {
      sets =
          put w.sets pset
            (record s { threads = thread ∷ s.threads; thread_count = u32 (s.thread_count + 1) });
      thread_pset = put w.thread_pset thread pset;
    }

unfoldable pub pset_remove_thread : (pset thread : ℕ) → World → World
pset_remove_thread pset thread w =
    let s = w.sets pset in
    record w {
      sets = put w.sets pset (record s {
        threads = unlink thread s.threads;
        thread_count = u32 (s.thread_count + 0xffff_ffff);
      });
      thread_pset = put w.thread_pset thread 0;
    }

-- The counts of a set are those of its lists, and its members name it as theirs.
pub record IsOwned (w : World) (pset : ℕ) : Type 0 where
  pub processors : (w.sets pset).processor_count ≡ length (w.sets pset).processor_list
  pub threads : (w.sets pset).thread_count ≡ length (w.sets pset).threads
  pub processor_owner :
      (p : ℕ) → 1 ≤ count p (w.sets pset).processor_list → w.processor_pset p ≡ pset
  pub thread_owner : (t : ℕ) → 1 ≤ count t (w.sets pset).threads → w.thread_pset t ≡ pset

-- Every set but `NULL` is in order.
abbrev pub Owned : World → Type 0
Owned w = (pset : ℕ) → pset ≢ 0 → IsOwned w pset

-- A thread of no set may be added to a set that has room in its count: all sets stay in order.
pub pset_add_thread-Owned :
    (pset thread : ℕ) (w : World)
    → Owned w
    → w.thread_pset thread ≡ 0
    → pset ≢ 0
    → length (w.sets pset).threads + 1 < 2 ^ 32
    → Owned (pset_add_thread pset thread w)
unfolding pset_add_thread
pset_add_thread-Owned pset thread w o free real room q ne = record {
  processors = ground (arith, (o q ne).processors);
  threads = ground (arith, (o q ne).threads);
  processor_owner = λ p h. ground (arith, (o q ne).processor_owner p);
  thread_owner = λ t h. ground (arith, (o q ne).thread_owner t);
}

-- A thread that stands once in a set may be removed: all sets stay in order, and the thread is in
-- none.
pub pset_remove_thread-Owned :
    (pset thread : ℕ) (w : World)
    → Owned w
    → pset ≢ 0
    → count thread (w.sets pset).threads ≡ 1
    → length (w.sets pset).threads < 2 ^ 32
    → Owned (pset_remove_thread pset thread w)
      × ((pset_remove_thread pset thread w).thread_pset thread ≡ 0)
unfolding pset_remove_thread
pset_remove_thread-Owned pset thread w o real once fits = (
  λ q ne. record {
    processors = ground (arith, (o q ne).processors);
    threads = ground (arith, (o q ne).threads, length-unlink thread (w.sets pset).threads);
    processor_owner = λ p h. ground (arith, (o q ne).processor_owner p);
    thread_owner = λ t h. ground (
      arith,
      (o q ne).thread_owner t,
      (o pset real).thread_owner t,
      count-unlink thread t (w.sets pset).threads,
    );
  },
  ground arith,
)
