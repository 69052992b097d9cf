-- ===== src/Init.antt =====
-- init.h, init.c: the stages of the kernel's initialisation and the hooks that run at them. A hook
-- stands for its function and argument; the log says which hooks ran, and what `stage` was then.
-- The hooks between `init_hook_cur` and `__init_hooks_end` are a list. A hook that itself calls
-- `kernel_init_upto` is not modelled.
pub mod Order
pub mod Upto
pub mod Hooks
use rix_draft.QSort.{Sign, less, equal, greater, qsort}
use rix_draft.QSort.Bytes.{swap_type}
use rix_draft.Base.{
  ℕ, zero, suc, ◌+◌, ◌-◌, ◌^◌, ◌≡◌, Bool, true, false, List, [], ◌∷◌, ◌++◌, u32, ltb, leb, ◌==◌,
  Option, if◌then◌else◌,
}

-- `init_stage_hook_t`, with the stage as the number of `init_stage_t`.
pub record Hook : Type 0 where
  pub stage : ℕ
  pub priority : ℕ
  pub hook : ℕ

-- The results -1, 0 and 1 are the signs.
unfoldable pub hook_cmp : Hook → Hook → Sign
hook_cmp a b =
    if a.stage == b.stage
    then (if a.priority == b.priority
        then equal
        else if ltb a.priority b.priority
        then less
        else greater)
    else if ltb a.stage b.stage
    then less
    else greater

-- The hooks of a table from `i` on, as a list.
unfoldable pub hooks_from : (ℕ → Hook) → ℕ → ℕ → List Hook
hooks_from table i zero = []
hooks_from table i (suc n) = table i ∷ hooks_from table (suc i) n

-- `init_hooks_init`: a hook takes 32 bytes, and `address` is that of `__init_hooks_start`.
unfoldable pub init_hooks_init : (address num_hooks : ℕ) → (ℕ → Hook) → Option (ℕ → Hook)
unfolding hook_cmp
init_hooks_init address num_hooks table =
    qsort hook_cmp (suc num_hooks) (swap_type address 32 == 0) 0 num_hooks table

-- `init_hook_cur`, as what is left of the table, `stage`, and the log.
pub record Boot : Type 0 where
  pub hooks : List Hook
  pub stage : ℕ
  pub log : List (Hook × ℕ)

-- The `while` of `kernel_init_upto`. `stage` is unsigned, so that 0 - 1 is 2 ^ 32 - 1.
unfoldable pub run_hooks : ℕ → List Hook → ℕ → List (Hook × ℕ) → Boot
run_hooks upto [] stage log = record { hooks = []; stage = stage; log = log }
run_hooks upto (h ∷ hs) stage log =
    let now = u32 (h.stage + 0xffff_ffff) in
    let rest = run_hooks upto hs now (log ++ (h, now) ∷ []) in
    if leb h.stage upto then rest else record { hooks = h ∷ hs; stage = stage; log = log }

unfoldable pub kernel_init_upto : ℕ → Boot → Boot
unfolding run_hooks
kernel_init_upto upto b = record (run_hooks upto b.hooks b.stage b.log) { stage = upto }
