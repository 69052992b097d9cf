-- ===== src/Align/Laws.antt =====
-- stdlib.h: what the alignment macros compute at every power of two.
use native.Mathlib.Nat.{
  pow-suc, one-le-pow, mod-eq_of_lt, mod-lt, div-add-mod', mul-mod_left, div-lt_iff_lt-mul,
  mul_comm, mul_assoc,
}
use rix_draft.Base.{
  ℕ, zero, suc, ◌+◌, ◌-◌, ◌*◌, ◌/◌, ◌%◌, ◌^◌, ◌≤◌, ◌<◌, ◌≡◌, sym, ◌∙◌, ap, ==_iff, true, ◌↔◌,
  bit_and, u64, sub64, not64, arith,
}
use rix_draft.Base.Bits.{bit_and_mask, bit_and_high}
use rix_draft.Align.{round_up, round_down, is_aligned}

pub two-pow-add : (k j : ℕ) → 2 ^ (k + j) ≡ 2 ^ k * 2 ^ j
two-pow-add k zero = let e : k + 0 ≡ k = omega arith in rw e (omega arith)
two-pow-add k (suc j) =
    let e : k + suc j ≡ suc (k + j) = omega arith in
    rw (e, pow-suc 2 (k + j), two-pow-add k j, pow-suc 2 j) (mul_assoc (2 ^ k) (2 ^ j) 2)

pred-mul : (q p : ℕ) → 1 ≤ q → (q - 1) * p + p ≡ q * p
pred-mul zero p h = absurd (omega arith)
pred-mul (suc q) p h = let e : suc q - 1 ≡ q = omega arith in rw e (omega arith)

-- An alignment is `2 ^ k`, and `2 ^ j` is what it leaves of the 64 bits.
module _ (k j : ℕ) (width : k + j ≡ 64) where
  align_split : 2 ^ j * 2 ^ k ≡ 2 ^ 64
  align_split = mul_comm (2 ^ j) (2 ^ k) ∙ sym (two-pow-add k j) ∙ ap (λ (t : ℕ). 2 ^ t) width

  align_bounds : (1 ≤ 2 ^ k) × (1 ≤ 2 ^ j) × (2 ^ k ≤ 2 ^ 64)
  align_bounds = (
    one-le-pow k 2 (omega arith),
    one-le-pow j 2 (omega arith),
    grind (arith, align_split, one-le-pow j 2),
  )

  align_mask : sub64 (2 ^ k) 1 ≡ 2 ^ k - 1
  align_mask = omega (arith, align_bounds)

  not-align_mask : not64 (sub64 (2 ^ k) 1) ≡ (2 ^ j - 1) * 2 ^ k
  not-align_mask =
      rw align_mask
        (omega (arith, align_bounds, align_split, pred-mul (2 ^ j) (2 ^ k) align_bounds.1))

  pub bit_and-not_mask :
      (a : ℕ) → a < 2 ^ 64 → bit_and a (not64 (sub64 (2 ^ k) 1)) ≡ a / 2 ^ k * 2 ^ k
  bit_and-not_mask a h = rw not-align_mask (
      rw (bit_and_high k a (2 ^ j - 1), bit_and_mask j (a / 2 ^ k))
        (ap (λ (t : ℕ). t * 2 ^ k) (mod-eq_of_lt quotient_fits)))
    where
      quotient_fits : a / 2 ^ k < 2 ^ j
      quotient_fits = (div-lt_iff_lt-mul align_bounds.0).1 (rw align_split h)

  -- `ROUND_DOWN(a, 2^k)` is the largest multiple of the alignment up to `a`.
  pub round_down_lem : (a : ℕ) → a < 2 ^ 64 → round_down a (2 ^ k) ≡ a / 2 ^ k * 2 ^ k
  unfolding round_down
  round_down_lem a h = bit_and-not_mask a h

  pub round_up_lem :
      (a : ℕ) → a + (2 ^ k - 1) < 2 ^ 64 → round_up a (2 ^ k) ≡ (a + (2 ^ k - 1)) / 2 ^ k * 2 ^ k
  unfolding round_up
  round_up_lem a h =
      rw (bit_and-not_mask (u64 (a + sub64 (2 ^ k) 1)) (omega arith))
        (ap (λ (t : ℕ). t / 2 ^ k * 2 ^ k) (omega (arith, align_mask)))

  pub is_aligned_iff : (a : ℕ) → (is_aligned a (2 ^ k) ≡ true) ↔ (a % 2 ^ k ≡ 0)
  unfolding is_aligned
  is_aligned_iff a = rw (align_mask, bit_and_mask k a) (==_iff (a % 2 ^ k) 0)

  -- What a caller of `ROUND_UP` and `ROUND_DOWN` relies on.
  pub record IsRounded (a down up : ℕ) : Type 0 where
    pub down_aligned : down % 2 ^ k ≡ 0
    pub down_le : down ≤ a
    pub down_near : a < down + 2 ^ k
    pub up_aligned : up % 2 ^ k ≡ 0
    pub le_up : a ≤ up
    pub up_near : up < a + 2 ^ k

  -- For a power of two as the alignment, `ROUND_DOWN` and `ROUND_UP` give multiples of it, the one
  -- below and the other above the address or at it, each less than the alignment away, when rounding
  -- up does not wrap.
  pub round_bounds :
      (a : ℕ) → a + (2 ^ k - 1) < 2 ^ 64 → IsRounded a (round_down a (2 ^ k)) (round_up a (2 ^ k))
  round_bounds a h =
      rw (round_down_lem a (omega arith), round_up_lem a h)
        (record {
          down_aligned = mul-mod_left (a / 2 ^ k) (2 ^ k);
          down_le = omega (arith, parts a);
          down_near = omega (arith, parts a);
          up_aligned = mul-mod_left ((a + (2 ^ k - 1)) / 2 ^ k) (2 ^ k);
          le_up = omega (arith, parts (a + (2 ^ k - 1)));
          up_near = omega (arith, parts (a + (2 ^ k - 1)), align_bounds);
        })
    where
      parts : (n : ℕ) → (n / 2 ^ k * 2 ^ k + n % 2 ^ k ≡ n) × (n % 2 ^ k < 2 ^ k)
      parts n = (div-add-mod' n (2 ^ k), mod-lt n align_bounds.0)
