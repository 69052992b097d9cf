-- ===== src/LinkedList/Delete.antt =====
-- list.h: what `list_delete`, `list_remove_head`, `list_remove_tail` and `list_replace` do to rings.
use mathlib.Core.List.{append-nil}
use rix_draft.Base.{
  ◌≤◌, ◌≡◌, refl, ◌≢◌, List, [], ◌∷◌, ◌++◌, Option, some, count, count-append, arith, ==_ne,
}
use rix_draft.LinkedList.{
  Ptr, null, Links, put, stepping, list_delete, list_remove_head, list_remove_tail,
}
use rix_draft.LinkedList.Ring.{
  Chain-split, next_mem, Chain-end, last_mem, Ring, Ring-rotate, Spared, Ends, ne_null,
}

-- The links behind `list_delete(entry)` between the nodes `before` and `behind`.
deleted : Links → (before entry behind : Ptr) → Links
deleted m before entry behind = record {
  prev = put (put m.prev behind before) entry null;
  next = put (put m.next before behind) entry null;
}

module _ (m : Links) (entry : Ptr) where
  list_delete-run :
      entry ≢ null
      → m.next entry ≢ null
      → m.prev entry ≢ null
      → entry ≢ m.next entry
      → list_delete entry m ≡ some (tt, deleted m (m.prev entry) entry (m.next entry))
  unfolding list_delete deleted
  list_delete-run e n p ne = simp (
    list_delete,
    stepping,
    ==_ne entry null e,
    ==_ne (m.next entry) null n,
    ==_ne (m.prev entry) null p,
    ==_ne entry (m.next entry) ne,
  )

  -- The ring of a node `entry`, without it.
  Ring-deleted :
      (z : Ptr) (zs : List Ptr)
      → Ring m entry (z ∷ zs)
      → Ring (deleted m (m.prev entry) entry (m.next entry)) z zs
  unfolding deleted
  Ring-deleted z zs r = record {
    chain =
        Chain-end m _ z zs entry z (λ p. ground (arith, r.once p))
          (λ p h ne. ground (arith, r.once p)) (λ p h. ground (arith, r.once p, r.chain))
          (ground (arith, r.once entry, last_mem m z zs entry r.chain.2, r.chain))
          (ground (arith, r.once entry, r.chain)) r.chain.2;
    once = λ p. ground (arith, r.once p);
    real = ground (arith, r.real);
  }

-- Where the ring of `entry` closes behind a deletion, seen from a head at any place.
Ring-deleted_at :
    (m : Links) (head : Ptr) (xs : List Ptr) (entry : Ptr) (ys : List Ptr)
    → Ring m head (xs ++ entry ∷ ys)
    → Ring (deleted m (m.prev entry) entry (m.next entry)) head (xs ++ ys)
Ring-deleted_at m head xs entry [] r =
    rw append-nil (Ring-deleted m entry head xs (Ring-rotate m head xs entry [] r))
Ring-deleted_at m head xs entry (y ∷ ys) r =
    Ring-rotate _ y ys head xs
      (Ring-deleted m entry y (ys ++ head ∷ xs) (Ring-rotate m head xs entry (y ∷ ys) r))

-- The neighbours of a node in a ring with a head.
pub neighbours_mem :
    (m : Links) (head : Ptr) (xs : List Ptr) (entry : Ptr) (ys : List Ptr)
    → Ring m head (xs ++ entry ∷ ys)
    → (1 ≤ count (m.prev entry) (head ∷ xs)) × (1 ≤ count (m.next entry) (head ∷ ys))
neighbours_mem m head xs entry ys r =
    let parts = Chain-split m head xs entry ys head r.chain in
    (last_mem m head xs entry parts.0, next_mem m entry ys head parts.1)

-- `list_delete(entry)` takes a node out of a ring with a head, clears its links, and changes the
-- links of no node outside the ring.
pub Ring-list_delete :
    (m : Links) (head : Ptr) (xs : List Ptr) (entry : Ptr) (ys : List Ptr)
    → Ring m head (xs ++ entry ∷ ys)
    → Ends (list_delete entry m) λ _ m'.
      Ring m' head (xs ++ ys)
      × (m'.next entry ≡ null)
      × (m'.prev entry ≡ null)
      × Spared (head ∷ xs ++ entry ∷ ys) m m'
Ring-list_delete m head xs entry ys r =
    let near = neighbours_mem m head xs entry ys r in
    let split = λ (p : Ptr). count-append p xs (entry ∷ ys) in
    let real = ne_null m head (xs ++ entry ∷ ys) r in
    (
      tt,
      deleted m (m.prev entry) entry (m.next entry),
      list_delete-run m entry (real entry (ground (arith, split entry)))
          (real (m.next entry) (ground (arith, split (m.next entry), near)))
          (real (m.prev entry) (ground (arith, split (m.prev entry), near)))
          (ground (arith, split entry, near, r.once entry)),
      (
        Ring-deleted_at m head xs entry ys r,
        (unfold deleted in ground arith),
        (unfold deleted in ground arith),
        (unfold deleted in λ p out. (ground (arith, split p, near), ground (arith, split p, near))),
      ),
    )

-- What removal at either end promises: nothing of an empty ring, or the node `x`, cleared.
abbrev pub Removed : Links → Ptr → List Ptr → Ptr → List Ptr → Option Ptr → Links → Type 0
Removed m head all x rest got m' =
    (got ≡ some x)
    × Ring m' head rest
    × (m'.next x ≡ null)
    × (m'.prev x ≡ null)
    × Spared (head ∷ all) m m'

-- `list_remove_head(head)` takes the first node out of a ring and returns it.
pub Ring-list_remove_head :
    (m : Links) (head x : Ptr) (xs : List Ptr)
    → Ring m head (x ∷ xs)
    → Ends (list_remove_head head m) (Removed m head (x ∷ xs) x xs)
unfolding list_remove_head
Ring-list_remove_head m head x xs r =
    let (u, m', run, after) = Ring-list_delete m head [] x xs r in
    let real = ne_null m head (x ∷ xs) r head (ground arith) in
    let other : x ≢ head = ground (arith, r.once x) in
    (
      some x,
      m',
      simp (list_remove_head, stepping, ==_ne head null real, r.chain.0, ==_ne x head other, run),
      (refl, after.0, after.1, after.2, after.3),
    )

-- `list_remove_tail(list)` takes the last node out of a ring and returns it.
pub Ring-list_remove_tail :
    (m : Links) (head x : Ptr) (xs : List Ptr)
    → Ring m head (xs ++ x ∷ [])
    → Ends (list_remove_tail head m) (Removed m head (xs ++ x ∷ []) x xs)
unfolding list_remove_tail
Ring-list_remove_tail m head x xs r =
    let (u, m', run, after) = Ring-list_delete m head xs x [] r in
    let real = ne_null m head (xs ++ x ∷ []) r head (ground arith) in
    let last : m.prev head ≡ x = (Chain-split m head xs x [] head r.chain).1.1 in
    let other : x ≢ head = ground (arith, r.once x, count-append x xs (x ∷ [])) in
    let ring : Ring m' head xs = rw append-nil at (after.0) in
    (
      some x,
      m',
      simp (list_remove_tail, stepping, ==_ne head null real, last, ==_ne x head other, run),
      (refl, ring, after.1, after.2, after.3),
    )
