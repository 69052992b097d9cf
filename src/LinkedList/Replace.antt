-- ===== src/LinkedList/Replace.antt =====
-- list.h: what `list_replace` does to rings.
use rix_draft.Base.{◌≡◌, ◌≢◌, List, [], ◌∷◌, ◌++◌, some, count, count-append, arith, ==_ne, sym}
use rix_draft.LinkedList.{Ptr, null, Links, put, stepping, list_replace}
use rix_draft.LinkedList.Ring.{Chain-end, last_mem, Ring, Ring-rotate, Spared, Ends, ne_null}
use rix_draft.LinkedList.Delete.{neighbours_mem}

-- The links behind `list_replace(old_entry, new_entry)` between the nodes `before` and `behind`.
replaced : Links → (before new_entry behind : Ptr) → Links
replaced m before new_entry behind = record {
  prev = put (put m.prev new_entry before) behind new_entry;
  next = put (put m.next new_entry behind) before new_entry;
}

module _ (m : Links) (old_entry new_entry : Ptr) (real : new_entry ≢ null) where
  list_replace-run :
      old_entry ≢ null
      → m.next old_entry ≢ null
      → m.prev old_entry ≢ null
      → new_entry ≢ old_entry
      → old_entry ≢ m.prev old_entry
      → list_replace old_entry new_entry m
        ≡ some (tt, replaced m (m.prev old_entry) new_entry (m.next old_entry))
  unfolding list_replace replaced
  list_replace-run e n p fresh ne = simp (
    list_replace,
    stepping,
    ==_ne old_entry null e,
    ==_ne new_entry null real,
    ==_ne (m.next old_entry) null n,
    ==_ne (m.prev old_entry) null p,
    ==_ne old_entry new_entry (λ q. fresh (sym q)),
    ==_ne old_entry (m.prev old_entry) ne,
  )

  -- The new node stands in the place of the old one.
  Ring-replaced :
      (z : Ptr) (zs : List Ptr)
      → Ring m old_entry (z ∷ zs)
      → count new_entry (z ∷ zs) ≡ 0
      → Ring (replaced m (m.prev old_entry) new_entry (m.next old_entry)) new_entry (z ∷ zs)
  unfolding replaced
  Ring-replaced z zs r fresh = record {
    chain = (
      ground (arith, r.chain, last_mem m z zs old_entry r.chain.2),
      ground (arith, r.chain),
      Chain-end m _ z zs old_entry new_entry (λ p. ground (arith, r.once p))
          (λ p h ne. ground (arith, r.once p, r.chain)) (λ p h. ground (arith, r.once p, r.chain))
          (ground arith) (ground (arith, r.chain, fresh)) r.chain.2,
    );
    once = λ p. ground (arith, r.once p);
    real = ground (arith, r.real);
  }

Ring-replaced_at :
    (m : Links) (head : Ptr) (xs : List Ptr) (old_entry : Ptr) (ys : List Ptr) (new_entry : Ptr)
    → new_entry ≢ null
    → count new_entry (head ∷ xs ++ ys) ≡ 0
    → Ring m head (xs ++ old_entry ∷ ys)
    → Ring (replaced m (m.prev old_entry) new_entry (m.next old_entry)) head (xs ++ new_entry ∷ ys)
Ring-replaced_at m head xs old_entry [] new_entry real fresh r =
    Ring-rotate _ new_entry [] head xs (
      Ring-replaced m old_entry new_entry real head xs (Ring-rotate m head xs old_entry [] r)
        (ground (arith, count-append new_entry xs [])))
Ring-replaced_at m head xs old_entry (y ∷ ys) new_entry real fresh r =
    Ring-rotate _ new_entry (y ∷ ys) head xs (
      Ring-replaced m old_entry new_entry real y (ys ++ head ∷ xs)
        (Ring-rotate m head xs old_entry (y ∷ ys) r)
        (ground (arith, count-append new_entry xs (y ∷ ys), count-append new_entry ys (head ∷ xs))))

-- `list_replace(old_entry, new_entry)` puts a new node in the place of a node of a ring with a
-- head, and changes the links of no node outside the ring.
pub Ring-list_replace :
    (m : Links) (head : Ptr) (xs : List Ptr) (old_entry : Ptr) (ys : List Ptr) (new_entry : Ptr)
    → Ring m head (xs ++ old_entry ∷ ys)
    → new_entry ≢ null
    → count new_entry (head ∷ xs ++ old_entry ∷ ys) ≡ 0
    → Ends (list_replace old_entry new_entry m) λ _ m'.
      Ring m' head (xs ++ new_entry ∷ ys) × Spared (new_entry ∷ head ∷ xs ++ old_entry ∷ ys) m m'
Ring-list_replace m head xs old_entry ys new_entry r real fresh =
    let near = neighbours_mem m head xs old_entry ys r in
    let split = λ (p : Ptr). count-append p xs (old_entry ∷ ys) in
    let some_node = ne_null m head (xs ++ old_entry ∷ ys) r in
    (
      tt,
      replaced m (m.prev old_entry) new_entry (m.next old_entry),
      list_replace-run m old_entry new_entry real
          (some_node old_entry (ground (arith, split old_entry)))
          (some_node (m.next old_entry) (ground (arith, split (m.next old_entry), near)))
          (some_node (m.prev old_entry) (ground (arith, split (m.prev old_entry), near)))
          (ground (arith, split new_entry))
          (ground (arith, split old_entry, near, r.once old_entry)),
      (
        Ring-replaced_at m head xs old_entry ys new_entry real
            (ground (arith, split new_entry, count-append new_entry xs ys)) r,
        (unfold replaced in
            λ p out. (ground (arith, split p, near), ground (arith, split p, near))),
      ),
    )
