-- ===== src/QSort/Parts.antt =====
-- qsort.c: how the parts that `qsort` sorts make up the whole, and the short arrays.
use rix_draft.Base.{
  ℕ, zero, suc, ◌+◌, ◌-◌, ◌≤◌, ◌<◌, ◌≡◌, refl, inl, inr, Bool, Option, some, ltb, arith, Bool-cases,
  ltb→lt,
}
use rix_draft.QSort.{Sign, less, equal, greater, Cut, insert_all, if_long}
use rix_draft.QSort.Moves.{
  Moved, same, Moved-trans, Moved-widen, Moved-outside, Moved-all, Moved-keeps,
}
use rix_draft.QSort.Order.{IsComparison, SortedOn, around, equal_refl}
use rix_draft.QSort.Insertion.{insert_all_lem}
use rix_draft.QSort.Split.{Split}
use rix_draft.QSort.Gather.{Parted}

module _ {A : Type 0} (cmp : A → A → Sign) (o : IsComparison cmp) where
  -- A result that is the array in order from `lo` up to `hi`.
  abbrev pub Sorts : ℕ → ℕ → (ℕ → A) → Option (ℕ → A) → Type 0
  Sorts lo hi a r = (b : ℕ → A) × (r ≡ some b) × SortedOn cmp lo hi b × Moved lo hi a b

  SortedOn-join :
      (v : A) (lo p q hi : ℕ) (a : ℕ → A)
      → p ≤ q
      → Parted cmp v lo p q hi a
      → SortedOn cmp lo p a
      → SortedOn cmp q hi a
      → SortedOn cmp lo hi a
  SortedOn-join v lo p q hi a pq s low high i j li ij jh = ground (
    arith,
    low i j,
    high i j,
    s.lower i,
    s.lower j,
    s.middle i,
    s.middle j,
    s.upper i,
    s.upper j,
    around cmp o (a i) v (a j),
  )

  -- Moves within the lower or the upper part keep the parts.
  Parted-lower :
      (v : A) (lo p q hi : ℕ) (a b : ℕ → A)
      → p ≤ q
      → Parted cmp v lo p q hi a
      → Moved lo p a b
      → Parted cmp v lo p q hi b
  Parted-lower v lo p q hi a b pq s m = record {
    lower = Moved-all lo p (λ x. cmp x v ≡ less) a b m s.lower;
    middle = λ i l h. rw (Moved-outside lo p a b i (inr l) m) (s.middle i l h);
    upper = λ i l h. rw (Moved-outside lo p a b i (inr (omega arith)) m) (s.upper i l h);
  }

  Parted-upper :
      (v : A) (lo p q hi : ℕ) (a b : ℕ → A)
      → p ≤ q
      → Parted cmp v lo p q hi a
      → Moved q hi a b
      → Parted cmp v lo p q hi b
  Parted-upper v lo p q hi a b pq s m = record {
    lower = λ i l h. rw (Moved-outside q hi a b i (inl (omega arith)) m) (s.lower i l h);
    middle = λ i l h. rw (Moved-outside q hi a b i (inl h) m) (s.middle i l h);
    upper = Moved-all q hi (λ x. cmp x v ≡ greater) a b m s.upper;
  }

  -- A part of one element at most is in order as it is.
  pub part_Sorts :
      (lo n : ℕ) (a : ℕ → A) (r : Option (ℕ → A))
      → (1 < n → Sorts lo (lo + n) a r)
      → Sorts lo (lo + n) a (if_long n r a)
  unfolding if_long
  part_Sorts lo n a r ih = elim (Bool-cases (ltb 1 n)) [
    | inl long ↦ rw (long, if_long) (ih (ltb→lt 1 n long))
    | inr short ↦
        rw (short, if_long) (a, refl, (λ i j li ij jh. absurd (ground (arith, short))), same _ refl)
  ]

  -- Sorting the lower and then the upper part sorts the whole.
  pub Sorts-parts :
      (v : A) (lo p q hi : ℕ) (a b c : ℕ → A)
      → lo ≤ p
      → p ≤ q
      → q ≤ hi
      → Parted cmp v lo p q hi a
      → SortedOn cmp lo p b
      → Moved lo p a b
      → SortedOn cmp q hi c
      → Moved q hi b c
      → SortedOn cmp lo hi c × Moved lo hi a c
  Sorts-parts v lo p q hi a b c lp pq qh s sb mb sc mc =
      let parts = Parted-upper v lo p q hi b c pq (Parted-lower v lo p q hi a b pq s mb) mc in
      let still = λ (i : ℕ) (h : i < p). Moved-outside q hi b c i (inl (omega arith)) mc in
      let low : SortedOn cmp lo p c =
        λ i j li ij jh. rw (still i (omega arith), still j jh) (sb i j li ij jh) in
      (
        SortedOn-join v lo p q hi c pq parts low sc,
        Moved-trans lo hi a b c (Moved-widen lo p lo hi a b (omega arith) (omega arith) mb)
            (Moved-widen q hi lo hi b c (omega arith) (omega arith) mc),
      )

  pub short_Sorts :
      (lo n : ℕ) (a : ℕ → A) → Sorts lo (lo + n) a (some (insert_all cmp lo (n - 1) 1 a))
  short_Sorts lo zero a =
      (a, (unfold insert_all in refl), (λ i j li ij jh. absurd (omega arith)), same _ refl)
  short_Sorts lo (suc n) a =
      let done = insert_all_lem cmp o lo n 1 a (λ i j li ij jh. absurd (omega arith)) in
      let left : suc n - 1 ≡ n = omega arith in
      let sum : suc n ≡ 1 + n = omega arith in rw (left, sum) (_, refl, done.0, done.1)

  -- The two parts that are sorted again are together shorter than the array: the pivot is in neither.
  pub parts_shorter :
      (copied : Bool) (v : A) (lo hi : ℕ) (a : ℕ → A) (c : Cut A) (pm : ℕ)
      → Split cmp copied v lo hi c
      → c.pc ≡ c.pb
      → Moved lo hi a c.arr
      → lo ≤ pm
      → pm < hi
      → a pm ≡ v
      → (c.pb - c.pa) + (c.pd - c.pc) < hi - lo
  parts_shorter copied v lo hi a c pm s met m lp ph at =
      let (k, lk, kh, there) = Moved-keeps lo hi a c.arr pm lp ph m in
      let even : cmp (c.arr k) v ≡ equal = rw (there, at) (equal_refl cmp o v) in
      ground (arith, s.low k, s.high k, s.lo_pa, s.pa_pb, s.pc_pd, s.pd_hi)
