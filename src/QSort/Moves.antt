-- ===== src/QSort/Moves.antt =====
-- qsort.c: arrays that come from each other by exchanges within a range.
use rix_draft.Base.{
  ℕ, ◌+◌, ◌≤◌, ◌<◌, ◌≡◌, refl, ◌⊎◌, ◌==◌, if◌then◌else◌, arith, zero, suc, Bool-cases, inl, inr,
  leb, ltb, ◌&&◌, ◌-◌,
}
use rix_draft.QSort.{swap, vecswap}

-- `b` is `a` after exchanges of elements from `lo` up to `hi`, exclusive.
pub data Moved {A : Type 0} (lo hi : ℕ) (a : ℕ → A) : (ℕ → A) → Type 0 where
  same : (b : ℕ → A) → b ≡ a → Moved lo hi a b
  exchange :
      (b c : ℕ → A) (i j : ℕ)
      → Moved lo hi a c
      → lo ≤ i
      → i < hi
      → lo ≤ j
      → j < hi
      → b ≡ swap c i j
      → Moved lo hi a b

module _ {A : Type 0} (lo hi : ℕ) where
  pub Moved-trans : (a b c : ℕ → A) → Moved lo hi a b → Moved lo hi b c → Moved lo hi a c
  Moved-trans a b c ab (same _ e) = rw e ab
  Moved-trans a b c ab (exchange _ d i j bd li hi' lj hj e) =
      exchange _ d i j (Moved-trans a b d ab bd) li hi' lj hj e

  -- Elements outside the range stay.
  pub Moved-outside : (a b : ℕ → A) (k : ℕ) → (k < lo) ⊎ (hi ≤ k) → Moved lo hi a b → b k ≡ a k
  Moved-outside a b k out (same _ e) = rw e refl
  Moved-outside a b k out (exchange _ c i j ac li hi' lj hj e) =
      rw e (ground (arith, Moved-outside a c k out ac))

  -- What holds of all elements of the range holds of them still.
  pub Moved-all :
      (P : A → Type 0) (a b : ℕ → A)
      → Moved lo hi a b
      → ((k : ℕ) → lo ≤ k → k < hi → P (a k))
      → (k : ℕ) → lo ≤ k
      → k < hi
      → P (b k)
  Moved-all P a b (same _ e) h k lk hk = rw e (h k lk hk)
  Moved-all P a b (exchange _ c i j ac li hi' lj hj e) h k lk hk =
      let all = Moved-all P a c ac h in
      rw e (elim (Bool-cases (k == i)) [
        | inl first ↦ rw first (all j lj hj)
        | inr other ↦ elim (Bool-cases (k == j)) [
          | inl second ↦ rw (other, second) (all i li hi')
          | inr neither ↦ rw (other, neither) (all k lk hk)
        ]
      ])

  -- An element of the range is somewhere in it still.
  pub Moved-keeps :
      (a b : ℕ → A) (k : ℕ)
      → lo ≤ k
      → k < hi
      → Moved lo hi a b
      → (k' : ℕ) × (lo ≤ k') × (k' < hi) × (b k' ≡ a k)
  Moved-keeps a b k lk hk (same _ e) = (k, lk, hk, rw e refl)
  Moved-keeps a b k lk hk (exchange _ c i j ac li hi' lj hj e) =
      let (k', lk', hk', at) = Moved-keeps a c k lk hk ac in
      elim (Bool-cases (k' == i)) [
        | inl first ↦ (j, lj, hj, rw e (ground (arith, at)))
        | inr other ↦ elim (Bool-cases (k' == j)) [
          | inl second ↦ (i, li, hi', rw e (ground (arith, at)))
          | inr neither ↦ (k', lk', hk', rw e (ground (arith, at)))
        ]
      ]

pub Moved-widen :
    {A : Type 0} (lo hi lo' hi' : ℕ) (a b : ℕ → A)
    → lo' ≤ lo
    → hi ≤ hi'
    → Moved lo hi a b
    → Moved lo' hi' a b
Moved-widen lo hi lo' hi' a b hl hh (same _ e) = same _ e
Moved-widen lo hi lo' hi' a b hl hh (exchange _ c i j ac li hi1 lj hj e) =
    exchange _ c i j (Moved-widen lo hi lo' hi' a c hl hh ac) (omega arith) (omega arith)
      (omega arith) (omega arith) e

-- What two exchanged stretches that lie apart hold, and that they are exchanges.
pub vecswap_lem :
    {A : Type 0} (n i j : ℕ) (a : ℕ → A) (k : ℕ)
    → i + n ≤ j
    → vecswap n i j a k ≡ (
        if leb i k && ltb k (i + n)
        then a (k + (j - i))
        else if leb j k && ltb k (j + n)
        then a (k - (j - i))
        else a k)
unfolding vecswap
vecswap_lem zero i j a k h = ground arith
vecswap_lem (suc n) i j a k h = ground (arith, vecswap_lem n (i + 1) (j + 1) (swap a i j) k)

pub Moved-vecswap :
    {A : Type 0} (lo hi n i j : ℕ) (a b : ℕ → A)
    → lo ≤ i
    → i + n ≤ hi
    → lo ≤ j
    → j + n ≤ hi
    → Moved lo hi a b
    → Moved lo hi a (vecswap n i j b)
unfolding vecswap
Moved-vecswap lo hi zero i j a b li hi' lj hj m = m
Moved-vecswap lo hi (suc n) i j a b li hi' lj hj m =
    Moved-vecswap lo hi n (i + 1) (j + 1) a (swap b i j) (omega arith) (omega arith) (omega arith)
      (omega arith)
      (exchange _ b i j m (omega arith) (omega arith) (omega arith) (omega arith) refl)
