-- ===== src/Examples/Sorting.antt =====
-- qsort.c, init.c: the theorems about sorting at concrete tables.
use rix_draft.Base.{ℕ, ◌+◌, ◌-◌, ◌*◌, ◌≡◌, ◌<◌, [], some, u8, false, leb, not, map, arith}
use rix_draft.QSort.{qsort, swap}
use rix_draft.QSort.Moves.{Moved}
use rix_draft.QSort.Order.{SortedOn}
use rix_draft.QSort.Parts.{Sorts}
use rix_draft.QSort.Sorts.{qsort-Sorts}
use rix_draft.QSort.Bytes.{swap_type, swapfunc}
use rix_draft.QSort.Elements.{element, swapfunc-swap}
use rix_draft.Init.{Hook, hook_cmp, hooks_from, init_hooks_init, kernel_init_upto}
use rix_draft.Init.Order.{hook_cmp-IsComparison}
use rix_draft.Init.Upto.{entry}
use rix_draft.Init.Hooks.{select, init_hooks_init-kernel_init_upto}

-- Nine hooks, the last stages first.
abbrev table : ℕ → Hook
table k = record { stage = 9 - k; priority = k; hook = 100 + k }

qsort-Sorts_example :
    Sorts hook_cmp hook_cmp-IsComparison.0 0 (0 + 9) table (qsort hook_cmp 10 false 0 9 table)
qsort-Sorts_example = qsort-Sorts hook_cmp hook_cmp-IsComparison.0 10 false 0 9 table (omega arith)

abbrev memory : ℕ → ℕ
memory a = u8 a

-- Elements of twelve bytes, which are swapped bytewise.
swapfunc-swap_example :
    (m' : ℕ → ℕ) × (swapfunc (0x1000 + 1 * 12) (0x1000 + 3 * 12) 12 (swap_type 0x1000 12) memory
      ≡ some m')
    × ((q k : ℕ) → k < 12 → element 0x1000 12 m' q k ≡ swap (element 0x1000 12 memory) 1 3 q k)
swapfunc-swap_example = swapfunc-swap 0x1000 12 1 3 memory

init_hooks_init_example :
    (sorted : ℕ → Hook) × (init_hooks_init 0x2000 9 table ≡ some sorted)
    × Moved 0 9 table sorted
    × SortedOn hook_cmp 0 9 sorted
    × ((upto stage : ℕ)
        → kernel_init_upto upto (record { hooks = hooks_from sorted 0 9; stage = stage; log = [] })
          ≡ record {
            hooks = select (λ h. not (leb h.stage upto)) (hooks_from sorted 0 9);
            stage = upto;
            log = map entry (select (λ h. leb h.stage upto) (hooks_from sorted 0 9));
          })
init_hooks_init_example = init_hooks_init-kernel_init_upto 0x2000 9 table
