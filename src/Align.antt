-- ===== src/Align.antt =====
-- stdlib.h: the alignment macros, on `uintptr_t` operands below 2 ^ 64.
pub mod Laws
use rix_draft.Base.{ℕ, ◌+◌, Bool, bit_and, u64, sub64, not64, ◌==◌}

-- `ROUND_UP`, and `ALIGN`, which is the same macro.
unfoldable pub round_up : ℕ → ℕ → ℕ
round_up addr align = bit_and (u64 (addr + sub64 align 1)) (not64 (sub64 align 1))

unfoldable pub round_down : ℕ → ℕ → ℕ
round_down addr align = bit_and addr (not64 (sub64 align 1))

pub is_aligned : ℕ → ℕ → Bool
is_aligned addr align = bit_and addr (sub64 align 1) == 0
