-- ===== src/QSort/Scans.antt =====
-- qsort.c: the two scans of the partition.
use rix_draft.Base.{ℕ, zero, suc, ◌+◌, ◌-◌, ◌≤◌, ◌<◌, ◌≡◌, refl, ◌⊎◌, inl, inr, Bool, arith}
use rix_draft.QSort.{Sign, less, greater, swap, Cut, scan_up, scan_down}
use rix_draft.QSort.Moves.{Moved, same, exchange, Moved-trans}
use rix_draft.QSort.Order.{IsComparison, Sign-cases, equal_refl}
use rix_draft.QSort.Split.{
  Split, Held, HeldFirst, pivot_lem, Held-pivot, up_equal, up_less, down_equal, down_greater,
}

module _ {A : Type 0} (cmp : A → A → Sign) (o : IsComparison cmp) (copied : Bool) (v : A)
    (lo hi : ℕ) where
  -- What the first scan leaves of `c`.
  pub record Upped (c c' : Cut A) : Type 0 where
    pub split : Split cmp copied v lo hi c'
    pub moved : Moved lo hi c.arr c'.arr
    pub held : HeldFirst cmp copied v lo hi c'
    pub stop : (c'.pb ≡ c'.pc) ⊎ (cmp (c'.arr c'.pb) v ≡ greater)
    pub pb_le : c.pb ≤ c'.pb
    pub pc_same : c'.pc ≡ c.pc

  Upped-after :
      (c b c' : Cut A)
      → Moved lo hi c.arr b.arr
      → c.pb ≤ b.pb
      → b.pc ≡ c.pc
      → Upped b c'
      → Upped c c'
  Upped-after c b c' m le e u = record {
    split = u.split;
    moved = Moved-trans lo hi c.arr b.arr c'.arr m u.moved;
    held = u.held;
    stop = u.stop;
    pb_le = omega (arith, le, u.pb_le);
    pc_same = omega (arith, e, u.pc_same);
  }

  pub scan_up_lem :
      (k : ℕ) (c : Cut A)
      → c.pb + k ≡ c.pc
      → Split cmp copied v lo hi c
      → HeldFirst cmp copied v lo hi c
      → Upped c (scan_up cmp copied v lo k c)
  unfolding scan_up
  scan_up_lem zero c e s h = record {
    split = s;
    moved = same _ refl;
    held = h;
    stop = inl (omega arith);
    pb_le = omega arith;
    pc_same = refl;
  }
  scan_up_lem (suc k) c e s h = elim (Sign-cases (cmp (c.arr c.pb) v)) [
    | inl lt ↦
        let b : Cut A = record c { pb = c.pb + 1 } in
        let held : HeldFirst cmp copied v lo hi b = ground (arith, equal_refl cmp o v) in
        rw (scan_up, pivot_lem cmp copied v lo hi c h, lt)
          (Upped-after c b _ (same _ refl) (omega arith) refl (
            scan_up_lem k b (omega arith) (up_less cmp copied v lo hi o c s (omega arith) lt) held))
    | inr (inl eq) ↦
        let b : Cut A = record c { pa = c.pa + 1; pb = c.pb + 1; arr = swap c.arr c.pa c.pb } in
        let held : HeldFirst cmp copied v lo hi b = ground (arith, s.lo_pa, s.pa_pb) in
        rw (scan_up, pivot_lem cmp copied v lo hi c h, eq)
          (Upped-after c b _
            (exchange _ c.arr c.pa c.pb (same _ refl) s.lo_pa
              (omega (arith, s.pa_pb, s.pc_pd, s.pd_hi)) (omega (arith, s.lo_pa, s.pa_pb))
              (omega (arith, s.pc_pd, s.pd_hi)) refl)
            (omega arith) refl
            (scan_up_lem k b (omega arith) (up_equal cmp copied v lo hi o c s (omega arith) eq)
              held))
    | inr (inr gt) ↦
        rw (scan_up, pivot_lem cmp copied v lo hi c h, gt)
          (record {
            split = s;
            moved = same _ refl;
            held = h;
            stop = inr gt;
            pb_le = omega arith;
            pc_same = refl;
          })
  ]

  pub Held-after : (c c' : Cut A) → lo < c.pc → Upped c c' → Held cmp copied v lo hi c'
  Held-after c c' lt u = ground (arith, u.held, u.stop, u.pc_same, equal_refl cmp o v)

  -- What the second scan leaves of `c`.
  pub record Downed (c c' : Cut A) : Type 0 where
    pub split : Split cmp copied v lo hi c'
    pub moved : Moved lo hi c.arr c'.arr
    pub held : Held cmp copied v lo hi c'
    pub guard : c'.pb < c'.pc → cmp (c'.arr c'.pb) v ≡ greater
    pub stop : (c'.pc ≡ c'.pb) ⊎ (cmp (c'.arr (c'.pc - 1)) v ≡ less)
    pub pb_same : c'.pb ≡ c.pb
    pub pc_le : c'.pc ≤ c.pc

  Downed-after :
      (c b c' : Cut A)
      → Moved lo hi c.arr b.arr
      → b.pb ≡ c.pb
      → b.pc ≤ c.pc
      → Downed b c'
      → Downed c c'
  Downed-after c b c' m e le u = record {
    split = u.split;
    moved = Moved-trans lo hi c.arr b.arr c'.arr m u.moved;
    held = u.held;
    guard = u.guard;
    stop = u.stop;
    pb_same = omega (arith, e, u.pb_same);
    pc_le = omega (arith, le, u.pc_le);
  }

  pub scan_down_lem :
      (k : ℕ) (c : Cut A)
      → c.pb + k ≡ c.pc
      → Split cmp copied v lo hi c
      → Held cmp copied v lo hi c
      → (c.pb < c.pc → cmp (c.arr c.pb) v ≡ greater)
      → Downed c (scan_down cmp copied v lo k c)
  unfolding scan_down
  scan_down_lem zero c e s h g = record {
    split = s;
    moved = same _ refl;
    held = h;
    guard = g;
    stop = inl (omega arith);
    pb_same = refl;
    pc_le = omega arith;
  }
  scan_down_lem (suc k) c e s h g = elim (Sign-cases (cmp (c.arr (c.pc - 1)) v)) [
    | inl lt ↦
        rw (scan_down, Held-pivot cmp copied v lo hi c h, lt)
          (record {
            split = s;
            moved = same _ refl;
            held = h;
            guard = g;
            stop = inr lt;
            pb_same = refl;
            pc_le = omega arith;
          })
    | inr (inl eq) ↦
        let b : Cut A = record c {
          pc = c.pc - 1;
          pd = c.pd - 1;
          arr = swap c.arr (c.pc - 1) (c.pd - 1);
        } in
        let held : Held cmp copied v lo hi b = ground (arith, s.pa_pb, s.pc_pd) in
        let guard : b.pb < b.pc → cmp (b.arr b.pb) v ≡ greater = λ lt. ground (arith, g, s.pc_pd) in
        rw (scan_down, Held-pivot cmp copied v lo hi c h, eq)
          (Downed-after c b _
            (exchange _ c.arr (c.pc - 1) (c.pd - 1) (same _ refl) (omega (arith, s.lo_pa, s.pa_pb))
              (omega (arith, s.pc_pd, s.pd_hi)) (omega (arith, s.lo_pa, s.pa_pb, s.pc_pd))
              (omega (arith, s.pc_pd, s.pd_hi)) refl)
            refl (omega arith)
            (scan_down_lem k b (omega arith) (down_equal cmp copied v lo hi o c s (omega arith) eq)
              held guard))
    | inr (inr gt) ↦
        let b : Cut A = record c { pc = c.pc - 1 } in
        rw (scan_down, Held-pivot cmp copied v lo hi c h, gt)
          (Downed-after c b _ (same _ refl) refl (omega arith) (
            scan_down_lem k b (omega arith) (down_greater cmp copied v lo hi o c s (omega arith) gt)
              h (λ lt. g (omega arith))))
  ]
