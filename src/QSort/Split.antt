-- ===== src/QSort/Split.antt =====
-- qsort.c: the invariant of the partition, and the steps of its two scans.
use rix_draft.Base.{ℕ, ◌+◌, ◌-◌, ◌≤◌, ◌<◌, ◌≡◌, ◌⊎◌, Bool, true, arith}
use rix_draft.QSort.{Sign, less, equal, greater, swap, Cut, pivot}
use rix_draft.QSort.Order.{IsComparison}

module _ {A : Type 0} (cmp : A → A → Sign) (copied : Bool) (v : A) (lo hi : ℕ) where
  -- From `lo` up to `pa` and from `pd` up to `hi` the elements are equal to the pivot, from `pa` up to
  -- `pb` they are less, and from `pc` up to `pd` greater.
  pub record Split (c : Cut A) : Type 0 where
    pub lo_pa : lo ≤ c.pa
    pub pa_pb : c.pa ≤ c.pb
    pub pb_pc : c.pb ≤ c.pc
    pub pc_pd : c.pc ≤ c.pd
    pub pd_hi : c.pd ≤ hi
    pub low_equal : (i : ℕ) → lo ≤ i → i < c.pa → cmp (c.arr i) v ≡ equal
    pub low : (i : ℕ) → c.pa ≤ i → i < c.pb → cmp (c.arr i) v ≡ less
    pub high : (i : ℕ) → c.pc ≤ i → i < c.pd → cmp (c.arr i) v ≡ greater
    pub high_equal : (i : ℕ) → c.pd ≤ i → i < hi → cmp (c.arr i) v ≡ equal

  -- The pivot is a copy, or it stands first, and no exchange reaches it any more.
  abbrev pub Held : Cut A → Type 0
  Held c = (copied ≡ true) ⊎ ((lo < c.pa) × (c.arr lo ≡ v))

  -- Before the first exchange the pivot may stand at `pb`.
  abbrev pub HeldFirst : Cut A → Type 0
  HeldFirst c = (copied ≡ true) ⊎ ((c.arr lo ≡ v) × ((lo < c.pa) ⊎ (c.pb ≡ lo)))

  pub pivot_lem : (c : Cut A) → HeldFirst c → pivot cmp copied v lo c.arr ≡ v
  pivot_lem c h = ground arith

  pub Held-pivot : (c : Cut A) → Held c → pivot cmp copied v lo c.arr ≡ v
  Held-pivot c h = ground arith

  module _ (o : IsComparison cmp) (c : Cut A) (s : Split c) where
    pub up_equal :
        c.pb < c.pc
        → cmp (c.arr c.pb) v ≡ equal
        → Split (record c { pa = c.pa + 1; pb = c.pb + 1; arr = swap c.arr c.pa c.pb })
    up_equal lt e = record {
      lo_pa = ground (arith, s.lo_pa);
      pa_pb = ground (arith, s.pa_pb);
      pb_pc = ground arith;
      pc_pd = s.pc_pd;
      pd_hi = s.pd_hi;
      low_equal = λ i l h. ground (arith, s.low_equal i, s.pa_pb);
      low = λ i l h. ground (arith, s.low i, s.low c.pa, s.pa_pb);
      high = λ i l h. ground (arith, s.high i, s.pa_pb);
      high_equal = λ i l h. ground (arith, s.high_equal i, s.pa_pb, s.pc_pd);
    }

    pub up_less : c.pb < c.pc → cmp (c.arr c.pb) v ≡ less → Split (record c { pb = c.pb + 1 })
    up_less lt e = record {
      lo_pa = s.lo_pa;
      pa_pb = ground (arith, s.pa_pb);
      pb_pc = ground arith;
      pc_pd = s.pc_pd;
      pd_hi = s.pd_hi;
      low_equal = s.low_equal;
      low = λ i l h. ground (arith, s.low i);
      high = s.high;
      high_equal = s.high_equal;
    }

    pub down_equal :
        c.pb < c.pc
        → cmp (c.arr (c.pc - 1)) v ≡ equal
        → Split (record c { pc = c.pc - 1; pd = c.pd - 1; arr = swap c.arr (c.pc - 1) (c.pd - 1) })
    down_equal lt e = record {
      lo_pa = s.lo_pa;
      pa_pb = s.pa_pb;
      pb_pc = ground arith;
      pc_pd = ground (arith, s.pc_pd);
      pd_hi = ground (arith, s.pd_hi);
      low_equal = λ i l h. ground (arith, s.low_equal i, s.pa_pb, s.pc_pd);
      low = λ i l h. ground (arith, s.low i, s.pc_pd);
      high = λ i l h. ground (arith, s.high i, s.high (c.pd - 1), s.pc_pd);
      high_equal = λ i l h. ground (arith, s.high_equal i, s.pc_pd);
    }

    pub down_greater :
        c.pb < c.pc → cmp (c.arr (c.pc - 1)) v ≡ greater → Split (record c { pc = c.pc - 1 })
    down_greater lt e = record {
      lo_pa = s.lo_pa;
      pa_pb = s.pa_pb;
      pb_pc = ground arith;
      pc_pd = ground (arith, s.pc_pd);
      pd_hi = s.pd_hi;
      low_equal = s.low_equal;
      low = s.low;
      high = λ i l h. ground (arith, s.high i);
      high_equal = s.high_equal;
    }

    -- The exchange between the scans.
    pub cross :
        c.pb + 1 < c.pc
        → cmp (c.arr c.pb) v ≡ greater
        → cmp (c.arr (c.pc - 1)) v ≡ less
        → Split (record c { pb = c.pb + 1; pc = c.pc - 1; arr = swap c.arr c.pb (c.pc - 1) })
    cross lt g l' = record {
      lo_pa = s.lo_pa;
      pa_pb = ground (arith, s.pa_pb);
      pb_pc = ground arith;
      pc_pd = ground (arith, s.pc_pd);
      pd_hi = s.pd_hi;
      low_equal = λ i l h. ground (arith, s.low_equal i, s.pa_pb);
      low = λ i l h. ground (arith, s.low i);
      high = λ i l h. ground (arith, s.high i);
      high_equal = λ i l h. ground (arith, s.high_equal i, s.pc_pd);
    }
