-- ===== src/QSort/Sorts.antt =====
-- qsort.c: the sort ends, and its result is the array in order.
use rix_draft.Base.{
  ℕ, zero, suc, ◌+◌, ◌-◌, ◌≤◌, ◌<◌, ◌≡◌, refl, inl, inr, Bool, false, some, ltb, if◌then◌else◌,
  arith, Bool-cases,
}
use rix_draft.QSort.{Sign, swap, Cut, choose, partition, gather, if_long, qsort}
use rix_draft.QSort.Moves.{Moved, same, exchange, Moved-trans}
use rix_draft.QSort.Order.{IsComparison}
use rix_draft.QSort.Split.{Split, HeldFirst}
use rix_draft.QSort.Partition.{partition_lem}
use rix_draft.QSort.Gather.{gather-Parted, Moved-gather, choose_bounds}
use rix_draft.QSort.Parts.{Sorts, part_Sorts, Sorts-parts, short_Sorts, parts_shorter}

module _ {A : Type 0} (cmp : A → A → Sign) (o : IsComparison cmp) where
  -- The array and the scans before the partition.
  module _ (copied : Bool) (lo n pm : ℕ) (a : ℕ → A) where
    first : ℕ → A
    first = if copied then a else swap a lo pm

    start : Cut A
    start = record { pa = lo; pb = lo; pc = lo + n; pd = lo + n; arr = first }

    Moved-first : lo ≤ pm → pm < lo + n → Moved lo (lo + n) a first
    unfolding first
    Moved-first l h = elim (Bool-cases copied) [
      | inl yes_copied ↦ rw yes_copied (same _ refl)
      | inr in_place ↦
          rw in_place (exchange _ a lo pm (same _ refl) (omega arith) (omega arith) l h refl)
    ]

    start-Split : Split cmp copied (a pm) lo (lo + n) start
    unfolding start
    start-Split = record {
      lo_pa = omega arith;
      pa_pb = omega arith;
      pb_pc = omega arith;
      pc_pd = omega arith;
      pd_hi = omega arith;
      low_equal = λ i l h. absurd (omega arith);
      low = λ i l h. absurd (omega arith);
      high = λ i l h. absurd (omega arith);
      high_equal = λ i l h. absurd (omega arith);
    }

    start-held : HeldFirst cmp copied (a pm) lo (lo + n) start
    unfolding start first
    start-held = elim (Bool-cases copied) [
      | inl yes_copied ↦ inl yes_copied
      | inr in_place ↦ inr (rw in_place (ground arith), inr refl)
    ]

  -- What `qsort` gives by what its calls give.
  qsort_runs :
      (fuel : ℕ) (copied : Bool) (lo n : ℕ) (a b d : ℕ → A) (c : Cut A)
      → ltb n 7 ≡ false
      → partition cmp copied
          (a (choose cmp lo n a))
          lo
          (suc n)
          (start copied lo n (choose cmp lo n a) a)
        ≡ some c
      → if_long
          (c.pb - c.pa)
          (qsort cmp fuel copied lo (c.pb - c.pa) (gather cmp lo (lo + n) c))
          (gather cmp lo (lo + n) c)
        ≡ some b
      → if_long (c.pd - c.pc) (qsort cmp fuel copied (lo + n - (c.pd - c.pc)) (c.pd - c.pc) b) b
        ≡ some d
      → qsort cmp (suc fuel) copied lo n a ≡ some d
  unfolding qsort start first
  qsort_runs fuel copied lo n a b d c long e eb ed = rw (long, e, eb, ed, qsort) refl

  long_Sorts :
      (fuel : ℕ) (copied : Bool) (lo n : ℕ) (a : ℕ → A)
      → ltb n 7 ≡ false
      → ((lo' n' : ℕ) (a' : ℕ → A)
          → n' < n
          → Sorts cmp o lo' (lo' + n') a' (qsort cmp fuel copied lo' n' a'))
      → Sorts cmp o lo (lo + n) a (qsort cmp (suc fuel) copied lo n a)
  unfolding first start
  long_Sorts fuel copied lo n a long again =
      let pm = choose cmp lo n a in
      let hi = lo + n in
      let bounds = choose_bounds cmp lo n a (ground (arith, long)) in
      let (c, e, s, m, met) =
        partition_lem cmp o copied (a pm) lo hi (suc n) (start copied lo n pm a) (omega arith)
          (omega (arith, bounds)) (start-Split copied lo n pm a) (start-held copied lo n pm a) in
      let m' = Moved-trans lo hi a _ c.arr (Moved-first copied lo n pm a bounds.0 bounds.1) m in
      let low = c.pb - c.pa in
      let high = c.pd - c.pc in
      let shorter =
        parts_shorter cmp o copied (a pm) lo hi a c pm s met m' bounds.0 bounds.1 refl in
      let g = gather cmp lo hi c in
      let parts = gather-Parted cmp copied (a pm) lo hi c s met in
      let (b, eb, sb, mb) =
        part_Sorts cmp o lo low g (qsort cmp fuel copied lo low g)
          (λ h. again lo low g (omega (arith, shorter))) in
      let (d, ed, sd, md) =
        part_Sorts cmp o (hi - high) high b (qsort cmp fuel copied (hi - high) high b)
          (λ h. again (hi - high) high b (omega (arith, shorter))) in
      let end : hi - high + high ≡ hi = omega (arith, shorter) in
      let whole =
        Sorts-parts cmp o (a pm) lo (lo + low) (hi - high) hi g b d (omega arith)
          (omega (arith, shorter)) (omega arith) parts sb mb (rw end at sd) (rw end at md) in
      (
        d,
        qsort_runs fuel copied lo n a b d c long e eb ed,
        whole.0,
        Moved-trans lo hi a g d (Moved-gather cmp copied (a pm) lo hi c s met a m') whole.1,
      )

  -- For any comparison that is an order `qsort` ends, on more rounds of fuel than elements, whether the pivot is
  -- copied or not: it puts the `n` elements from `lo` on in order, by exchanges among them.
  pub qsort-Sorts :
      (fuel : ℕ) (copied : Bool) (lo n : ℕ) (a : ℕ → A)
      → n < fuel
      → Sorts cmp o lo (lo + n) a (qsort cmp fuel copied lo n a)
  unfolding qsort
  qsort-Sorts zero copied lo n a f = absurd (omega arith)
  qsort-Sorts (suc fuel) copied lo n a f = elim (Bool-cases (ltb n 7)) [
    | inl short ↦ rw (short, qsort) (short_Sorts cmp o lo n a)
    | inr long ↦
        long_Sorts fuel copied lo n a long
          (λ lo' n' a' h. qsort-Sorts fuel copied lo' n' a' (omega arith))
  ]
