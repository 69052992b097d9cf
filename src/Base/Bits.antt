-- ===== src/Base/Bits.antt =====
-- `&` and `|` at variables: the law for the lowest digit, masks of low and of high bits.
use Prim.Native.Nat.{min, max, digits, bitwise, bit_and-bitwise, bit_or-bitwise}
use native.Mathlib.Nat.{pow-suc, one-le-pow, mul_comm, div-add-mod, div-div-eq-div-mul, zero-div}
use Prim.Native.Nat.{ℕ, zero, suc, ◌+◌, ◌-◌, ◌*◌, ◌/◌, ◌%◌, ◌^◌, ◌≤◌, bit_and, bit_or}
use mathlib.Core.Path.{◌≡◌, refl, ap, ◌∙◌}
use rix_draft.Base.{◌⊎◌, inl, inr, ◌==◌, if◌then◌else◌, ◌<◌}
use native.Mathlib.Omega.{arith}

reach : (a n : ℕ) → a ≤ suc n → (a ≤ n) ⊎ (a ≡ suc n)
reach a n h = ground arith

-- An operation digit by digit: `rest` is applied to what the second word has left over.
module _ (rest : ℕ → ℕ) (digit : ℕ → ℕ → ℕ) where
  one_less :
      (fuel x y : ℕ) → x ≤ fuel → digits rest digit (suc fuel) x y ≡ digits rest digit fuel x y
  one_less zero zero y h = refl
  one_less zero (suc x) y h = absurd (omega arith)
  one_less (suc fuel) zero y h = refl
  one_less (suc fuel) (suc x) y h = rw (one_less fuel (suc x / 2) (y / 2) (omega arith)) refl

  just_enough : (fuel x y : ℕ) → x ≤ fuel → digits rest digit fuel x y ≡ digits rest digit x x y
  just_enough zero zero y h = refl
  just_enough zero (suc x) y h = absurd (omega arith)
  just_enough (suc fuel) x y h = elim (reach x fuel h) [
    | inl below ↦ one_less fuel x y below ∙ just_enough fuel x y below
    | inr full ↦ rw full refl
  ]

  lowest :
      (x y : ℕ)
      → bitwise rest digit (suc x) y
        ≡ bitwise rest digit (suc x / 2) (y / 2) * 2 + digit (suc x % 2) (y % 2)
  lowest x y = rw (just_enough x (suc x / 2) (y / 2) (omega arith)) refl

pub bit_and_step : (x y : ℕ) → bit_and x y ≡ bit_and (x / 2) (y / 2) * 2 + min (x % 2) (y % 2)
bit_and_step zero y = simp bit_and-bitwise (omega arith)
bit_and_step (suc x) y = simp bit_and-bitwise (lowest (λ t. 0) min x y)

pub bit_or_step : (x y : ℕ) → bit_or x y ≡ bit_or (x / 2) (y / 2) * 2 + max (x % 2) (y % 2)
bit_or_step zero y = simp bit_or-bitwise (omega arith)
bit_or_step (suc x) y = simp bit_or-bitwise (lowest (λ t. t) max x y)

-- No bit is shared with zero.
bit_and-zero_within : (bound a : ℕ) → a ≤ bound → bit_and a 0 ≡ 0
bit_and-zero_within bound zero h = refl
bit_and-zero_within zero (suc a) h = absurd (omega arith)
bit_and-zero_within (suc bound) (suc a) h =
    let half = bit_and-zero_within bound (suc a / 2) (omega arith) in
    omega (arith, half, bit_and_step (suc a) 0)

pub bit_and-zero : (a : ℕ) → bit_and a 0 ≡ 0
bit_and-zero a = bit_and-zero_within a a (omega arith)

-- A multiple of the next power of two is even.
double_high : (n j : ℕ) → n * 2 ^ suc j ≡ n * 2 ^ j * 2
double_high n j = let by_parts = ap (λ (w : ℕ). n * w) (pow-suc 2 j) in omega (by_parts, arith)

mask_suc : (k : ℕ) → 2 ^ suc k - 1 ≡ 2 * (2 ^ k - 1) + 1
mask_suc k = omega (arith, pow-suc 2 k, one-le-pow k 2)

div-two-pow-suc : (a k : ℕ) → a / 2 ^ suc k ≡ a / 2 / 2 ^ k
div-two-pow-suc a k = rw (pow-suc 2 k, mul_comm (2 ^ k) 2, div-div-eq-div-mul a 2 (2 ^ k)) refl

-- The remainder by a power of two, digit by digit.
mod-two-pow-suc : (a k : ℕ) → a % 2 ^ suc k ≡ a / 2 % 2 ^ k * 2 + a % 2
mod-two-pow-suc a k = omega (
  arith,
  div-add-mod a (2 ^ suc k),
  div-add-mod (a / 2) (2 ^ k),
  ap (λ (t : ℕ). 2 ^ suc k * t) (div-two-pow-suc a k),
  double_high (a / 2 / 2 ^ k) k,
)

-- A mask of `k` low bits is the remainder by `2 ^ k`.
pub bit_and_mask : (k a : ℕ) → bit_and a (2 ^ k - 1) ≡ a % 2 ^ k
bit_and_mask zero a = rw (bit_and-zero a) (omega arith)
bit_and_mask (suc k) a =
    ground (
      arith,
      bit_and_step a (2 ^ suc k - 1),
      mask_suc k,
      bit_and_mask k (a / 2),
      mod-two-pow-suc a k,
    )

-- A mask whose `k` low bits are clear works on the quotient by `2 ^ k`.
pub bit_and_high : (k a q : ℕ) → bit_and a (q * 2 ^ k) ≡ bit_and (a / 2 ^ k) q * 2 ^ k
bit_and_high zero a q = ground arith
bit_and_high (suc k) a q = ground (
  arith,
  bit_and_step a (q * 2 ^ suc k),
  double_high q k,
  double_high (bit_and (a / 2 / 2 ^ k) q) k,
  div-two-pow-suc a k,
  bit_and_high k (a / 2) q,
)

-- A bit of `|`, at its place.
pub bit_or_at : (k a b : ℕ) → bit_or a b / 2 ^ k % 2 ≡ max (a / 2 ^ k % 2) (b / 2 ^ k % 2)
bit_or_at zero a b = omega (arith, bit_or_step a b)
bit_or_at (suc k) a b =
    let half : bit_or a b / 2 ≡ bit_or (a / 2) (b / 2) = omega (arith, bit_or_step a b) in
    rw (div-two-pow-suc (bit_or a b) k, div-two-pow-suc a k, div-two-pow-suc b k, half)
      (bit_or_at k (a / 2) (b / 2))

-- A power of two has one bit.
pub two-pow_at : (n k : ℕ) → 2 ^ n / 2 ^ k % 2 ≡ (if k == n then 1 else 0)
two-pow_at zero zero = refl
two-pow_at zero (suc k) = rw (div-two-pow-suc (2 ^ 0) k, zero-div (2 ^ k)) (ground arith)
two-pow_at (suc n) zero = ground (arith, double_high 1 n)
two-pow_at (suc n) (suc k) =
    let half : 2 ^ suc n / 2 ≡ 2 ^ n = omega (arith, double_high 1 n) in
    rw (div-two-pow-suc (2 ^ suc n) k, half) (ground (arith, two-pow_at n k))

bit_or-zero_within : (bound x : ℕ) → x ≤ bound → bit_or x 0 ≡ x
bit_or-zero_within bound zero h = refl
bit_or-zero_within zero (suc x) h = absurd (omega arith)
bit_or-zero_within (suc bound) (suc x) h =
    let rest = bit_or-zero_within bound (suc x / 2) (omega arith) in
    omega (arith, rest, bit_or_step (suc x) 0)

-- Words side by side.
pub bit_or_beside : (k high low : ℕ) → low < 2 ^ k → bit_or (high * 2 ^ k) low ≡ high * 2 ^ k + low
bit_or_beside zero high low h = ground (arith, bit_or-zero_within (high * 1) (high * 1))
bit_or_beside (suc k) high low h = ground (
  arith,
  bit_or_step (high * 2 ^ suc k) low,
  double_high high k,
  double_high 1 k,
  bit_or_beside k high (low / 2),
)
