-- ===== src/Spinlock.antt =====
-- spinlock.h: the spin lock, a word.
use rix_draft.Base.{ℕ, Bool, ◌==◌}

unfoldable pub spin_lock_init : (lock : ℕ) → ℕ
spin_lock_init lock = 0

unfoldable pub spin_lock_lock : (lock : ℕ) → ℕ
spin_lock_lock lock = 1

-- `!(*lock)`
unfoldable pub spin_lock_held : (lock : ℕ) → Bool
spin_lock_held lock = lock == 0

unfoldable pub spin_lock_unlock : (lock : ℕ) → ℕ
spin_lock_unlock lock = 0
