-- ===== src/Mmu/Checks.antt =====
-- mmu.c: what the tests of addresses accept.
use native.Mathlib.Nat.{one-le-pow}
use rix_draft.Base.{ℕ, ◌+◌, ◌-◌, ◌*◌, ◌%◌, ◌^◌, ◌≤◌, ◌<◌, ◌≡◌, sym, ◌∙◌, ap, ◌↔◌, true, arith}
use rix_draft.Align.Laws
use rix_draft.Align.Laws.{two-pow-add}
use rix_draft.Mmu.{check_vaddr, check_paddr}

two-pow-le : (w j n : ℕ) → w + j ≡ n → 2 ^ w ≤ 2 ^ n
two-pow-le w j n e =
    let sum : 2 ^ w * 2 ^ j ≡ 2 ^ n = sym (two-pow-add w j) ∙ ap (λ (t : ℕ). 2 ^ t) e in
    grind (arith, sum, one-le-pow j 2)

-- `x86_mmu_check_vaddr` accepts every aligned address, canonical or not, for all widths from 1 to 64:
-- one of its two comparisons always holds.
pub check_vaddr_lem :
    (vaddr_width rest vaddr : ℕ)
    → 1 ≤ vaddr_width
    → vaddr_width + rest ≡ 64
    → (check_vaddr vaddr_width vaddr ≡ true) ↔ (vaddr % 4096 ≡ 0)
unfolding check_vaddr
check_vaddr_lem w rest vaddr h e =
    let small : 2 ^ (w - 1) ≤ 2 ^ 63 = two-pow-le (w - 1) rest 63 (omega arith) in
    let big : 1 ≤ 2 ^ (w - 1) = one-le-pow (w - 1) 2 (omega arith) in
    ground (arith, Laws.is_aligned_iff 12 52 (omega arith) vaddr)

-- `x86_mmu_check_paddr` accepts exactly the aligned addresses below 2 ^ `paddr_width`, for the
-- widths below 64.
pub check_paddr_lem :
    (paddr_width rest paddr : ℕ)
    → paddr_width + rest ≡ 63
    → (check_paddr paddr_width paddr ≡ true) ↔ ((paddr % 4096 ≡ 0) × (paddr < 2 ^ paddr_width))
unfolding check_paddr
check_paddr_lem w rest paddr e =
    let small : 2 ^ w ≤ 2 ^ 63 = two-pow-le w rest 63 e in
    let big : 1 ≤ 2 ^ w = one-le-pow w 2 (omega arith) in
    ground (arith, Laws.is_aligned_iff 12 52 (omega arith) paddr)
