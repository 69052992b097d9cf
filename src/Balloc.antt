-- ===== src/Balloc.antt =====
-- balloc.c, balloc.h: the boot time allocator. `boot_alloc_start` and `boot_alloc_end` are its
-- state; both begin at the linker's symbol `__end`, which is a parameter.
use rix_draft.Base.{ℕ, ◌+◌, ◌%◌, ◌^◌, ◌≤◌, ◌<◌, ◌≡◌, List, [], ◌∷◌, u64, arith}
use rix_draft.Align.{round_up}
use rix_draft.Align.Laws
use rix_draft.Align.Laws.{IsRounded}

pub record BootAlloc : Type 0 where
  pub boot_alloc_start : ℕ
  pub boot_alloc_end : ℕ

-- The two globals as they are initialised.
abbrev pub init : ℕ → BootAlloc
init end_symbol = record { boot_alloc_start = end_symbol; boot_alloc_end = end_symbol }

-- The pointer that `balloc(len)` returns, and the allocator behind it.
unfoldable pub balloc : ℕ → BootAlloc → ℕ × BootAlloc
balloc len s =
    let ptr = round_up s.boot_alloc_end 8 in
    (ptr, record s { boot_alloc_end = u64 (ptr + round_up len 8) })

-- Requests in sequence, with the block that each one gets.
unfoldable pub balloc_all : List ℕ → BootAlloc → List (ℕ × ℕ) × BootAlloc
balloc_all [] s = ([], s)
balloc_all (len ∷ lens) s =
    let (ptr, s') = balloc len s in
    let (blocks, s'') = balloc_all lens s' in ((ptr, len) ∷ blocks, s'')

-- The room that the requests take, with the padding of both roundings.
abbrev pub room : List ℕ → ℕ
room [] = 0
room (len ∷ lens) = len + 16 + room lens

-- Aligned blocks that lie one behind the other between `lo` and `hi`.
abbrev pub Stacked : ℕ → List (ℕ × ℕ) → ℕ → Type 0
Stacked lo [] hi = lo ≤ hi
Stacked lo ((ptr, len) ∷ blocks) hi = (lo ≤ ptr) × (ptr % 8 ≡ 0) × Stacked (ptr + len) blocks hi

-- What one call does, for a request that fits the address space.
pub record IsBalloc (len : ℕ) (s : BootAlloc) (ptr : ℕ) (s' : BootAlloc) : Type 0 where
  pub aligned : ptr % 8 ≡ 0
  pub behind : s.boot_alloc_end ≤ ptr
  pub near : ptr < s.boot_alloc_end + 8
  pub holds : ptr + len ≤ s'.boot_alloc_end
  pub tight : s'.boot_alloc_end < ptr + len + 8
  pub start : s'.boot_alloc_start ≡ s.boot_alloc_start

-- `balloc` returns a pointer aligned to 8 bytes, less than 8 bytes behind the old end, and moves
-- the end less than 8 bytes behind the block, when the block and its padding do not wrap.
pub balloc_lem :
    (len : ℕ) (s : BootAlloc)
    → s.boot_alloc_end + len + 16 ≤ 2 ^ 64
    → IsBalloc len s (balloc len s).0 (balloc len s).1
unfolding balloc
balloc_lem len s fits =
    let ptr : IsRounded 3 61 _ s.boot_alloc_end _ (round_up s.boot_alloc_end 8) =
      Laws.round_bounds 3 61 (omega arith) s.boot_alloc_end (omega arith) in
    let size = Laws.round_bounds 3 61 (omega arith) len (omega arith) in omega arith

Stacked-le :
    (lo lo' : ℕ) (blocks : List (ℕ × ℕ)) (hi : ℕ)
    → lo ≤ lo'
    → Stacked lo' blocks hi
    → Stacked lo blocks hi
Stacked-le lo lo' [] hi h s = omega arith
Stacked-le lo lo' ((ptr, len) ∷ blocks) hi h s = (omega arith, s.1, s.2)

-- Blocks that are handed out one after the other are aligned to 8 bytes, do not overlap, and lie
-- between the old end of the allocator and the new one, when their room does not wrap.
pub balloc_all-Stacked :
    (lens : List ℕ) (s : BootAlloc)
    → s.boot_alloc_end + room lens ≤ 2 ^ 64
    → Stacked s.boot_alloc_end (balloc_all lens s).0 (balloc_all lens s).1.boot_alloc_end
unfolding balloc_all
balloc_all-Stacked [] s fits = omega arith
balloc_all-Stacked (len ∷ lens) s fits =
    let one = balloc_lem len s (omega arith) in
    let s' = (balloc len s).1 in
    let rest = balloc_all-Stacked lens s' (omega arith) in
    (one.behind, one.aligned, Stacked-le _ _ _ _ one.holds rest)
