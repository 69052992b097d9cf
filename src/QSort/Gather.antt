-- ===== src/QSort/Gather.antt =====
-- qsort.c: the two block exchanges behind the partition, and the choice of the pivot.
use rix_draft.Base.{
  ℕ, ◌+◌, ◌-◌, ◌*◌, ◌/◌, ◌≤◌, ◌<◌, ◌≡◌, refl, ◌⊎◌, inl, inr, Bool, min, ltb, arith, Bool-cases,
  ltb→lt,
}
use rix_draft.QSort.{Sign, less, equal, greater, Cut, vecswap, gather, med3, choose}
use rix_draft.QSort.Moves.{Moved, Moved-vecswap, vecswap_lem}
use rix_draft.QSort.Split.{Split}

-- The stretches from `x` to `y` and from `y` to `z`, behind `vecswap` on their ends.
exchanged : {A : Type 0} → (x y z : ℕ) → (ℕ → A) → ℕ → A
exchanged x y z a = let s = min (y - x) (z - y) in vecswap s x (z - s) a

module _ {A : Type 0} (cmp : A → A → Sign) where
  -- Exchanging the ends of two neighbouring stretches exchanges the stretches, for a comparison
  -- that tells them apart.
  module _ (v : A) (first second : Sign) (x y z : ℕ) (a : ℕ → A) where
    exchange_stretches :
        x ≤ y
        → y ≤ z
        → ((i : ℕ) → x ≤ i → i < y → cmp (a i) v ≡ first)
        → ((i : ℕ) → y ≤ i → i < z → cmp (a i) v ≡ second)
        → ((i : ℕ) → x ≤ i → i < x + (z - y) → cmp (exchanged x y z a i) v ≡ second)
          × ((i : ℕ) → x + (z - y) ≤ i → i < z → cmp (exchanged x y z a i) v ≡ first)
          × ((i : ℕ) → (i < x) ⊎ (z ≤ i) → exchanged x y z a i ≡ a i)
    unfolding exchanged
    exchange_stretches xy yz hf hs =
        let s = min (y - x) (z - y) in
        let at = λ (i : ℕ). vecswap_lem s x (z - s) a i (omega arith) in
        (
          λ i l h. rw (at i) (ground (arith, hf, hs i, hs (i + (z - s - x)))),
          λ i l h. rw (at i) (ground (arith, hf i, hf (i - (z - s - x)))),
          λ i out. rw (at i) (ground arith),
        )

  -- The array in three parts, against the pivot.
  pub record Parted (v : A) (lo p q hi : ℕ) (a : ℕ → A) : Type 0 where
    pub lower : (i : ℕ) → lo ≤ i → i < p → cmp (a i) v ≡ less
    pub middle : (i : ℕ) → p ≤ i → i < q → cmp (a i) v ≡ equal
    pub upper : (i : ℕ) → q ≤ i → i < hi → cmp (a i) v ≡ greater

  module _ (copied : Bool) (v : A) (lo hi : ℕ) (c : Cut A) (s : Split cmp copied v lo hi c) where
    gather-exchanged :
        c.pc ≡ c.pb → gather cmp lo hi c ≡ exchanged c.pb c.pd hi (exchanged lo c.pa c.pb c.arr)
    unfolding gather exchanged
    gather-exchanged met =
        let stretch : c.pd - c.pc ≡ c.pd - c.pb = omega (arith, met) in rw stretch refl

    -- Behind the block exchanges the elements that are equal to the pivot stand in the middle.
    pub gather-Parted :
        c.pc ≡ c.pb → Parted v lo (lo + (c.pb - c.pa)) (hi - (c.pd - c.pc)) hi (gather cmp lo hi c)
    gather-Parted met =
        let low =
          exchange_stretches v equal less lo c.pa c.pb c.arr s.lo_pa s.pa_pb s.low_equal s.low in
        let b = exchanged lo c.pa c.pb c.arr in
        let high =
          exchange_stretches v greater equal c.pb c.pd hi b (omega (arith, s.pc_pd)) s.pd_hi
            (λ i l h. rw (low.2 i (inr l)) (s.high i (omega (arith, met)) h))
            (λ i l h. rw (low.2 i (inr (omega (arith, s.pc_pd)))) (s.high_equal i l h)) in
        rw (gather-exchanged met) (record {
          lower = λ i l h. rw (high.2 i (inl (omega (arith, s.pa_pb)))) (low.0 i l h);
          middle = λ i l h. middle_at i l h low.1 high.0 high.2;
          upper = λ i l h. high.1 i (omega (arith, met, s.pc_pd, s.pd_hi)) h;
        })
      where
        middle_at :
            (i : ℕ)
            → lo + (c.pb - c.pa) ≤ i
            → i < hi - (c.pd - c.pc)
            → ((j : ℕ)
                → lo + (c.pb - c.pa) ≤ j
                → j < c.pb
                → cmp (exchanged lo c.pa c.pb c.arr j) v ≡ equal)
            → ((j : ℕ)
                → c.pb ≤ j
                → j < c.pb + (hi - c.pd)
                → cmp (exchanged c.pb c.pd hi (exchanged lo c.pa c.pb c.arr) j) v ≡ equal)
            → ((j : ℕ)
                → (j < c.pb) ⊎ (hi ≤ j)
                → exchanged c.pb c.pd hi (exchanged lo c.pa c.pb c.arr) j
                  ≡ exchanged lo c.pa c.pb c.arr j)
            → cmp (exchanged c.pb c.pd hi (exchanged lo c.pa c.pb c.arr) i) v ≡ equal
        middle_at i l h low high outside = elim (Bool-cases (ltb i c.pb)) [
          | inl left ↦ rw (outside i (inl (ltb→lt i c.pb left))) (low i l (ltb→lt i c.pb left))
          | inr right ↦ high i (ground (arith, right)) (ground (arith, met, s.pc_pd, s.pd_hi))
        ]

    pub Moved-gather :
        c.pc ≡ c.pb → (a : ℕ → A) → Moved lo hi a c.arr → Moved lo hi a (gather cmp lo hi c)
    unfolding gather
    Moved-gather met a m =
        let n = min (c.pa - lo) (c.pb - c.pa) in
        let n' = min (c.pd - c.pc) (hi - c.pd) in
        Moved-vecswap lo hi n' c.pb (hi - n') a (vecswap n lo (c.pb - n) c.arr)
          (omega (arith, s.lo_pa, s.pa_pb)) (omega (arith, s.pd_hi, s.pc_pd, s.pb_pc))
          (omega (arith, s.lo_pa, s.pa_pb, s.pc_pd, s.pd_hi, s.pb_pc))
          (omega (arith, s.pd_hi, s.pc_pd))
          (Moved-vecswap lo hi n lo (c.pb - n) a c.arr (omega arith)
            (omega (arith, s.lo_pa, s.pa_pb, s.pc_pd, s.pd_hi, s.pb_pc))
            (omega (arith, s.lo_pa, s.pa_pb))
            (omega (arith, s.pc_pd, s.pd_hi, s.lo_pa, s.pa_pb, s.pb_pc)) m)

  med3_mem :
      (a : ℕ → A) (x y z : ℕ)
      → (med3 cmp a x y z ≡ x) ⊎ ((med3 cmp a x y z ≡ y) ⊎ (med3 cmp a x y z ≡ z))
  unfolding med3
  med3_mem a x y z = ground arith

  -- The pivot is an element of the array.
  pub choose_bounds :
      (lo n : ℕ) (a : ℕ → A) → 1 ≤ n → (lo ≤ choose cmp lo n a) × (choose cmp lo n a < lo + n)
  unfolding choose
  choose_bounds lo n a h =
      let mid = lo + n / 2 in
      let last = lo + (n - 1) in
      let s = n / 8 in
      let x = med3 cmp a lo (lo + s) (lo + 2 * s) in
      let y = med3 cmp a (mid - s) mid (mid + s) in
      let z = med3 cmp a (last - 2 * s) (last - s) last in
      ground (
        arith,
        med3_mem a lo (lo + s) (lo + 2 * s),
        med3_mem a (mid - s) mid (mid + s),
        med3_mem a (last - 2 * s) (last - s) last,
        med3_mem a x y z,
        med3_mem a lo mid last,
      )
