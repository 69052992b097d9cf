-- ===== src/QSort.antt =====
-- qsort.c: the sort. An array is a function from the places of its elements; a pointer
-- `arr + i * es` is the place `i`. The comparison is a parameter, and `copied` says that `swaptype`
-- is 0, where the pivot is copied to `v`. The ends `pc` and `pd` are one place behind the code's
-- pointers, so that none lies before the array.
pub mod Moves
pub mod Order
pub mod Insertion
pub mod Split
pub mod Scans
pub mod Partition
pub mod Gather
pub mod Parts
pub mod Sorts
pub mod Bytes
pub mod Elements
use rix_draft.Base.{
  ℕ, zero, suc, ◌+◌, ◌-◌, ◌*◌, ◌/◌, Bool, true, false, Option, none, some, min, ltb, leb, ◌==◌,
  if◌then◌else◌,
}

-- The result of a comparison: negative, 0 or positive.
pub data Sign : Type 0 where
  less equal greater : Sign

-- `swap`
abbrev pub swap : {A : Type 0} → (ℕ → A) → ℕ → ℕ → ℕ → A
swap arr i j k = if k == i then arr j else if k == j then arr i else arr k

-- `vecswap`: `n` elements from `i` on with those from `j` on.
unfoldable pub vecswap : {A : Type 0} → ℕ → ℕ → ℕ → (ℕ → A) → ℕ → A
vecswap zero i j arr = arr
vecswap (suc n) i j arr = vecswap n (i + 1) (j + 1) (swap arr i j)

-- `if (s > es)` around a recursive call, for `n` elements: `sorted` is what the call gives.
unfoldable pub if_long : {A : Type 0} → ℕ → Option (ℕ → A) → (ℕ → A) → Option (ℕ → A)
if_long n sorted arr = elim (ltb 1 n) [ true ↦ sorted | false ↦ some arr ]

-- `pa`, `pb`, `pc` and `pd`, with the array.
pub record Cut (A : Type 0) : Type 0 where
  pub pa : ℕ
  pub pb : ℕ
  pub pc : ℕ
  pub pd : ℕ
  pub arr : ℕ → A

module _ {A : Type 0} (cmp : A → A → Sign) where
  -- The inner loop of the insertion sort, with `pl` at `lo + k`.
  unfoldable pub sink : ℕ → ℕ → (ℕ → A) → ℕ → A
  sink lo zero arr = arr
  sink lo (suc k) arr = elim (cmp (arr (lo + k)) (arr (lo + suc k))) [
    | greater ↦ sink lo k (swap arr (lo + suc k) (lo + k))
    | other ↦ arr
  ]

  -- The outer loop, with `pm` at `lo + k` and `left` more rounds.
  unfoldable pub insert_all : ℕ → ℕ → ℕ → (ℕ → A) → ℕ → A
  insert_all lo zero k arr = arr
  insert_all lo (suc left) k arr = insert_all lo left (suc k) (sink lo k arr)

  unfoldable pub med3 : (ℕ → A) → ℕ → ℕ → ℕ → ℕ
  med3 arr a b c = elim (cmp (arr a) (arr b)) [
    | less ↦ elim (cmp (arr b) (arr c)) [
      | less ↦ b
      | other ↦ elim (cmp (arr a) (arr c)) [ less ↦ c | other' ↦ a ]
    ]
    | other ↦ elim (cmp (arr b) (arr c)) [
      | greater ↦ b
      | other' ↦ elim (cmp (arr a) (arr c)) [ greater ↦ c | other'' ↦ a ]
    ]
  ]

  -- The place `pm` of the pivot.
  unfoldable pub choose : ℕ → ℕ → (ℕ → A) → ℕ
  unfolding med3
  choose lo n arr =
      let mid = lo + n / 2 in
      let last = lo + (n - 1) in
      let s = n / 8 in
      if ltb 40 n
      then med3 arr (med3 arr lo (lo + s) (lo + 2 * s)) (med3 arr (mid - s) mid (mid + s))
          (med3 arr (last - 2 * s) (last - s) last)
      else if ltb 7 n
      then med3 arr lo mid last
      else mid

  module _ (copied : Bool) (v : A) (lo : ℕ) where
    -- `*pv`
    abbrev pub pivot : (ℕ → A) → A
    pivot arr = if copied then v else arr lo

    -- The first `while`, with `k` places from `pb` up to `pc`.
    unfoldable pub scan_up : ℕ → Cut A → Cut A
    scan_up zero c = c
    scan_up (suc k) c = elim (cmp (c.arr c.pb) (pivot c.arr)) [
      | greater ↦ c
      | equal ↦ scan_up k (record c { pa = c.pa + 1; pb = c.pb + 1; arr = swap c.arr c.pa c.pb })
      | less ↦ scan_up k (record c { pb = c.pb + 1 })
    ]

    -- The second `while`.
    unfoldable pub scan_down : ℕ → Cut A → Cut A
    scan_down zero c = c
    scan_down (suc k) c = elim (cmp (c.arr (c.pc - 1)) (pivot c.arr)) [
      | less ↦ c
      | equal ↦
          scan_down k
            (record c { pc = c.pc - 1; pd = c.pd - 1; arr = swap c.arr (c.pc - 1) (c.pd - 1) })
      | greater ↦ scan_down k (record c { pc = c.pc - 1 })
    ]

    -- One round of the `for` up to its `break`.
    unfoldable pub scan : Cut A → Cut A
    unfolding scan_up scan_down
    scan c = let up = scan_up (c.pc - c.pb) c in scan_down (up.pc - up.pb) up

    -- The `for`; `none` is the end of the fuel.
    unfoldable pub partition : ℕ → Cut A → Option (Cut A)
    unfolding scan
    partition zero c = none
    partition (suc fuel) c =
        let d = scan c in
        elim (leb d.pc d.pb) [
          | true ↦ some d
          | false ↦
              partition fuel
                (record d { pb = d.pb + 1; pc = d.pc - 1; arr = swap d.arr d.pb (d.pc - 1) })
        ]

  -- The two calls of `vecswap`, which bring the middle together.
  unfoldable pub gather : ℕ → ℕ → Cut A → ℕ → A
  unfolding vecswap
  gather lo hi c =
      let s = min (c.pa - lo) (c.pb - c.pa) in
      let s' = min (c.pd - c.pc) (hi - c.pd) in
      vecswap s' c.pb (hi - s') (vecswap s lo (c.pb - s) c.arr)

  -- `qsort` of the `n` elements from `lo` on; `none` is the end of the fuel.
  unfoldable pub qsort : ℕ → Bool → ℕ → ℕ → (ℕ → A) → Option (ℕ → A)
  unfolding insert_all choose partition gather if_long
  qsort zero copied lo n arr = none
  qsort (suc fuel) copied lo n arr = elim (ltb n 7) [
    | true ↦ some (insert_all lo (n - 1) 1 arr)
    | false ↦
        let pm = choose lo n arr in
        let start : Cut A = record {
          pa = lo;
          pb = lo;
          pc = lo + n;
          pd = lo + n;
          arr = if copied then arr else swap arr lo pm;
        } in
        elim (partition copied (arr pm) lo (suc n) start) [
          | none ↦ none
          | some c ↦
              let low = c.pb - c.pa in
              let high = c.pd - c.pc in
              let gathered = gather lo (lo + n) c in
              elim (if_long low (qsort fuel copied lo low gathered) gathered) [
                | none ↦ none
                | some arr' ↦ if_long high (qsort fuel copied (lo + n - high) high arr') arr'
              ]
        ]
  ]
