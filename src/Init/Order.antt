-- ===== src/Init/Order.antt =====
-- init.c: `hook_cmp` is a total preorder, by the stage and then by the priority.
use rix_draft.Base.{◌<◌, ◌≡◌, ◌↔◌, ◌⊎◌, arith}
use rix_draft.QSort.{less, equal}
use rix_draft.QSort.Order.{IsComparison}
use rix_draft.Init.{Hook, hook_cmp}

-- `hook_cmp` is a comparison that orders the hooks by stage and, within a stage, by priority, lower
-- priorities first; it finds two hooks equal exactly when both agree.
pub hook_cmp-IsComparison :
    IsComparison hook_cmp
    × ((a b : Hook)
        → (hook_cmp a b ≡ less)
          ↔ ((a.stage < b.stage) ⊎ ((a.stage ≡ b.stage) × (a.priority < b.priority))))
    × ((a b : Hook) → (hook_cmp a b ≡ equal) ↔ ((a.stage ≡ b.stage) × (a.priority ≡ b.priority)))
unfolding hook_cmp
hook_cmp-IsComparison = (
  record { flips = λ a b. ground arith; trans = λ a b c h k. ground arith },
  λ a b. ground arith,
  λ a b. ground arith,
)
