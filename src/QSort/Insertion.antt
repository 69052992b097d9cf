-- ===== src/QSort/Insertion.antt =====
-- qsort.c: the insertion sort, for arrays of fewer than seven elements.
use rix_draft.Base.{ℕ, zero, suc, ◌+◌, ◌≤◌, ◌<◌, ◌≡◌, refl, ◌≢◌, inl, inr, arith}
use rix_draft.QSort.{Sign, greater, swap, sink, insert_all}
use rix_draft.QSort.Moves.{Moved, same, exchange, Moved-trans, Moved-widen}
use rix_draft.QSort.Order.{IsComparison, SortedOn, Sign-cases, flip_greater}

module _ {A : Type 0} (cmp : A → A → Sign) (o : IsComparison cmp) where
  -- In order but for the element at `p`, which is on its way down.
  record Sinking (lo hi p : ℕ) (a : ℕ → A) : Type 0 where
    others : (i j : ℕ) → lo ≤ i → i < j → j < hi → i ≢ p → j ≢ p → cmp (a i) (a j) ≢ greater
    above : (j : ℕ) → p < j → j < hi → cmp (a p) (a j) ≢ greater

  Sinking-swap :
      (lo hi k : ℕ) (a : ℕ → A)
      → lo + suc k < hi
      → Sinking lo hi (lo + suc k) a
      → cmp (a (lo + k)) (a (lo + suc k)) ≡ greater
      → Sinking lo hi (lo + k) (swap a (lo + suc k) (lo + k))
  Sinking-swap lo hi k a fits s g = record {
    others = λ i j li ij jh ip jp.
        ground (arith, s.others i j, s.others i (lo + k), s.others (lo + k) j);
    above = λ j pj jh. ground (arith, s.above j, flip_greater cmp o (a (lo + k)) (a (lo + suc k)));
  }

  Sinking-stop :
      (lo hi k : ℕ) (a : ℕ → A)
      → lo + suc k < hi
      → Sinking lo hi (lo + suc k) a
      → cmp (a (lo + k)) (a (lo + suc k)) ≢ greater
      → SortedOn cmp lo hi a
  Sinking-stop lo hi k a fits s g i j li ij jh = ground (
    arith,
    s.others i j,
    s.others i (lo + k),
    s.above j,
    o.trans (a i) (a (lo + k)) (a (lo + suc k)),
  )

  sink_lem :
      (lo hi k : ℕ) (a : ℕ → A)
      → lo + k < hi
      → Sinking lo hi (lo + k) a
      → SortedOn cmp lo hi (sink cmp lo k a) × Moved lo hi a (sink cmp lo k a)
  unfolding sink
  sink_lem lo hi zero a fits s =
      (λ i j li ij jh. ground (arith, s.others i j, s.above j), same _ refl)
  sink_lem lo hi (suc k) a fits s = elim (Sign-cases (cmp (a (lo + k)) (a (lo + suc k)))) [
    | inl e ↦ rw (e, sink) (Sinking-stop lo hi k a fits s (ground (arith, e)), same _ refl)
    | inr (inl e) ↦ rw (e, sink) (Sinking-stop lo hi k a fits s (ground (arith, e)), same _ refl)
    | inr (inr e) ↦
        let b = swap a (lo + suc k) (lo + k) in
        let rest = sink_lem lo hi k b (omega arith) (Sinking-swap lo hi k a fits s e) in
        rw (e, sink)
          (
            rest.0,
            Moved-trans lo hi a b _
                (exchange _ a (lo + suc k) (lo + k) (same _ refl) (omega arith) fits (omega arith)
                  (omega arith) refl)
                rest.1,
          )
  ]

  -- The insertion sort puts the elements from `lo` up to `lo + (k + left)` in order, if the first
  -- `k` are in order.
  pub insert_all_lem :
      (lo left k : ℕ) (a : ℕ → A)
      → SortedOn cmp lo (lo + k) a
      → SortedOn cmp lo (lo + (k + left)) (insert_all cmp lo left k a)
        × Moved lo (lo + (k + left)) a (insert_all cmp lo left k a)
  unfolding insert_all
  insert_all_lem lo zero k a s = let all : k + 0 ≡ k = omega arith in rw all (s, same _ refl)
  insert_all_lem lo (suc left) k a s =
      let one = sink_lem lo (lo + suc k) k a (omega arith) (record {
        others = λ i j li ij jh ip jp. s i j li ij (omega arith);
        above = λ j pj jh. absurd (omega arith);
      }) in
      let rest = insert_all_lem lo left (suc k) (sink cmp lo k a) one.0 in
      let sum : k + suc left ≡ suc k + left = omega arith in
      rw sum (
        rest.0,
        Moved-trans lo (lo + (suc k + left)) a _ _
            (Moved-widen lo (lo + suc k) lo (lo + (suc k + left)) a _ (omega arith) (omega arith)
              one.1)
            rest.1,
      )
