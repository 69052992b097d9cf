-- ===== src/LinkedList/Query.antt =====
-- list.h: what the tests, the peeks and `list_length` read from a ring.
use rix_draft.Base.{
  ℕ, zero, suc, ◌+◌, ◌<◌, ◌≡◌, List, [], ◌∷◌, some, Bool, true, false, count, ◌==◌, if◌then◌else◌,
  arith, ==_ne, length,
}
use rix_draft.LinkedList.{
  Ptr, null, Links, stepping, ◌>>=◌, get_next, list_is_empty, list_length, count_from,
}
use rix_draft.LinkedList.Ring.{Chain, Ring, ne_null}

abbrev pub is_nil : List Ptr → Bool
is_nil [] = true
is_nil (x ∷ xs) = false

module _ (m : Links) (head : Ptr) where
  -- `list_is_empty(list)` is true exactly of a ring with no node but its head.
  pub Ring-list_is_empty :
      (xs : List Ptr) → Ring m head xs → list_is_empty head m ≡ some (is_nil xs, m)
  unfolding list_is_empty
  Ring-list_is_empty [] r =
      let real = ne_null m head [] r head (ground arith) in
      simp (list_is_empty, stepping, ==_ne head null real, r.chain.0, r.chain.1) (ground arith)
  Ring-list_is_empty (x ∷ xs) r =
      let real = ne_null m head (x ∷ xs) r head (ground arith) in
      simp (list_is_empty, stepping, ==_ne head null real, r.chain.0) (ground (arith, r.once head))

  -- From a node of the ring, the loop of `list_length` counts the nodes that follow.
  count_from-Chain :
      (fuel : ℕ) (a : Ptr) (xs : List Ptr) (cnt : ℕ)
      → Chain m a xs head
      → count head xs ≡ 0
      → count null xs ≡ 0
      → length xs < fuel
      → count_from fuel head (m.next a) cnt m ≡ some (cnt + length xs, m)
  unfolding count_from
  count_from-Chain zero a xs cnt c h n f = absurd (omega arith)
  count_from-Chain (suc fuel) a [] cnt c h n f =
      let found : (head == head) ≡ true = ground arith in
      let sum : cnt + 0 ≡ cnt = omega arith in rw (c.0, found, sum)
  count_from-Chain (suc fuel) a (x ∷ xs) cnt c h n f =
      let other : (x == head) ≡ false = ground arith in
      let real : (x == null) ≡ false = ground arith in
      let sum : cnt + suc (length xs) ≡ cnt + 1 + length xs = omega arith in
      rw (c.0, other, ◌>>=◌, get_next, if◌then◌else◌, real, sum)
        (count_from-Chain fuel x xs (cnt + 1) c.2 (ground arith) (ground arith) (omega arith))

  -- `list_length` ends with the number of nodes, on one round of fuel more than that.
  pub Ring-list_length :
      (xs : List Ptr) (fuel : ℕ)
      → Ring m head xs
      → length xs < fuel
      → list_length fuel head m ≡ some (length xs, m)
  unfolding list_length
  Ring-list_length xs fuel r f =
      let real = ne_null m head xs r head (ground arith) in
      simp
        (
          list_length,
          stepping,
          ==_ne head null real,
          count_from-Chain fuel head xs 0 r.chain (ground (arith, r.once head))
              (ground (arith, r.real)) f,
        )
        (ground arith)
