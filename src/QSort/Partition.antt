-- ===== src/QSort/Partition.antt =====
-- qsort.c: the partition ends, and leaves the elements on their sides of the pivot.
use rix_draft.Base.{
  ℕ, zero, suc, ◌+◌, ◌-◌, ◌≤◌, ◌<◌, ◌≡◌, refl, ◌⊎◌, inl, inr, Bool, true, false, some, leb, arith,
}
use rix_draft.QSort.{Sign, less, greater, swap, Cut, scan_up, scan_down, scan, partition}
use rix_draft.QSort.Moves.{Moved, exchange, Moved-trans}
use rix_draft.QSort.Order.{IsComparison}
use rix_draft.QSort.Split.{Split, Held, HeldFirst, cross}
use rix_draft.QSort.Scans.{Upped, Downed, scan_up_lem, scan_down_lem, Held-after}

module _ {A : Type 0} (cmp : A → A → Sign) (o : IsComparison cmp) (copied : Bool) (v : A)
    (lo hi : ℕ) where
  -- One round: it meets in the middle, or finds two elements to exchange.
  record Scanned (c c' : Cut A) : Type 0 where
    split : Split cmp copied v lo hi c'
    moved : Moved lo hi c.arr c'.arr
    held : Held cmp copied v lo hi c'
    stop :
        (c'.pc ≡ c'.pb)
        ⊎ ((c'.pb + 1 < c'.pc)
            × (cmp (c'.arr c'.pb) v ≡ greater)
            × (cmp (c'.arr (c'.pc - 1)) v ≡ less))
    pb_le : c.pb ≤ c'.pb
    pc_le : c'.pc ≤ c.pc

  scan_lem :
      (c : Cut A)
      → lo < c.pc
      → Split cmp copied v lo hi c
      → HeldFirst cmp copied v lo hi c
      → Scanned c (scan cmp copied v lo c)
  unfolding scan
  scan_lem c lt s h =
      let up = scan_up cmp copied v lo (c.pc - c.pb) c in
      let u : Upped cmp o copied v lo hi c up =
        scan_up_lem cmp o copied v lo hi (c.pc - c.pb) c (omega (arith, s.pb_pc)) s h in
      let down = scan_down cmp copied v lo (up.pc - up.pb) up in
      let d : Downed cmp o copied v lo hi up down =
        scan_down_lem cmp o copied v lo hi (up.pc - up.pb) up (omega (arith, u.split.pb_pc)) u.split
          (Held-after cmp o copied v lo hi c up lt u) (λ l. ground (arith, u.stop)) in
      record {
        split = d.split;
        moved = Moved-trans lo hi c.arr up.arr down.arr u.moved d.moved;
        held = d.held;
        stop = scan_stop down d.split.pb_pc d.stop d.guard;
        pb_le = omega (arith, u.pb_le, d.pb_same);
        pc_le = omega (arith, u.pc_same, d.pc_le);
      }
    where
      scan_stop :
          (c' : Cut A)
          → c'.pb ≤ c'.pc
          → (c'.pc ≡ c'.pb) ⊎ (cmp (c'.arr (c'.pc - 1)) v ≡ less)
          → (c'.pb < c'.pc → cmp (c'.arr c'.pb) v ≡ greater)
          → (c'.pc ≡ c'.pb)
            ⊎ ((c'.pb + 1 < c'.pc)
                × (cmp (c'.arr c'.pb) v ≡ greater)
                × (cmp (c'.arr (c'.pc - 1)) v ≡ less))
      scan_stop c' le stop guard = ground (arith, guard)

  -- With more rounds of fuel than places between the scans the partition ends, with the scans met.
  pub partition_lem :
      (fuel : ℕ) (c : Cut A)
      → c.pc - c.pb < fuel
      → lo < c.pc
      → Split cmp copied v lo hi c
      → HeldFirst cmp copied v lo hi c
      → (c' : Cut A) × (partition cmp copied v lo fuel c ≡ some c')
        × Split cmp copied v lo hi c'
        × Moved lo hi c.arr c'.arr
        × (c'.pc ≡ c'.pb)
  unfolding partition
  partition_lem zero c f lt s h = absurd (omega arith)
  partition_lem (suc fuel) c f lt s h =
      let d = scan cmp copied v lo c in
      let r : Scanned c d = scan_lem c lt s h in
      elim r.stop [
        | inl met ↦
            let ends : leb d.pc d.pb ≡ true = ground arith in
            (d, rw (partition, ends) refl, r.split, r.moved, met)
        | inr (apart, gt, less_at) ↦
            let goes_on : leb d.pc d.pb ≡ false = ground arith in
            let b : Cut A = record d {
              pb = d.pb + 1;
              pc = d.pc - 1;
              arr = swap d.arr d.pb (d.pc - 1);
            } in
            let held : HeldFirst cmp copied v lo hi b =
              ground (arith, r.held, r.split.lo_pa, r.split.pa_pb) in
            let (c', e, s', m, met) =
              partition_lem fuel b (omega (arith, r.pb_le, r.pc_le))
                (omega (arith, r.split.lo_pa, r.split.pa_pb))
                (cross cmp copied v lo hi o d r.split apart gt less_at) held in
            (
              c',
              rw (partition, goes_on) e,
              s',
              Moved-trans lo hi c.arr b.arr c'.arr
                  (exchange _ d.arr d.pb (d.pc - 1) r.moved
                    (omega (arith, r.split.lo_pa, r.split.pa_pb))
                    (omega (arith, r.split.pc_pd, r.split.pd_hi))
                    (omega (arith, r.split.lo_pa, r.split.pa_pb))
                    (omega (arith, r.split.pc_pd, r.split.pd_hi)) refl)
                  m,
              met,
            )
      ]
