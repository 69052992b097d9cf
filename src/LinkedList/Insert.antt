-- ===== src/LinkedList/Insert.antt =====
-- list.h: what `list_init`, `list_add`, `list_add_tail` and `list_replace` do to rings.
use mathlib.Core.List.{append_assoc}
use rix_draft.Base.{
  ◌≤◌, ◌≡◌, ◌≢◌, List, [], ◌∷◌, ◌++◌, some, count, count-append, arith, ◌⊎◌, inl, inr, snoc_cases,
  ==_ne, sym,
}
use rix_draft.LinkedList.{Ptr, null, Links, put, stepping, list_init, list_add, list_add_tail}
use rix_draft.LinkedList.Ring.{
  next_mem, Chain, Chain-split, Chain-frame, Ring, Ring-rotate, Spared, Ends, ne_null,
}

-- The links behind `list_add(head, new_entry)`, where `first` is the old `head->next`.
inserted : Links → (head first new_entry : Ptr) → Links
inserted m head first new_entry = record {
  prev = put (put m.prev new_entry head) first new_entry;
  next = put (put m.next new_entry first) head new_entry;
}

module _ (m : Links) (head new_entry : Ptr) (real : new_entry ≢ null) where
  list_add-run :
      head ≢ null
      → m.next head ≢ null
      → new_entry ≢ head
      → list_add head new_entry m ≡ some (tt, inserted m head (m.next head) new_entry)
  unfolding list_add inserted
  list_add-run h n fresh = simp (
    list_add,
    stepping,
    ==_ne head null h,
    ==_ne new_entry null real,
    ==_ne head new_entry (λ e. fresh (sym e)),
    ==_ne (m.next head) null n,
  )

  -- An insertion before `head` is one behind its predecessor.
  list_add_tail-run :
      head ≢ null
      → m.prev head ≢ null
      → new_entry ≢ head
      → list_add_tail head new_entry m ≡ some (tt, inserted m (m.prev head) head new_entry)
  unfolding list_add_tail inserted
  list_add_tail-run h n fresh = simp (
    list_add_tail,
    stepping,
    ==_ne head null h,
    ==_ne new_entry null real,
    ==_ne head new_entry (λ e. fresh (sym e)),
    ==_ne (m.prev head) null n,
  )

  Chain-inserted :
      (xs : List Ptr)
      → Chain m head xs head
      → ((p : Ptr) → count p (head ∷ xs) ≤ 1)
      → count new_entry (head ∷ xs) ≡ 0
      → Chain (inserted m head (m.next head) new_entry) head (new_entry ∷ xs) head
  unfolding inserted
  Chain-inserted [] c once fresh = ground arith
  Chain-inserted (x ∷ xs) c once fresh = (
    ground arith,
    ground (arith, once x),
    (
      ground (arith, once head, once x),
      ground (arith, once head, once x),
      Chain-frame m _ x xs head (λ p h. ground (arith, once p)) (λ p h. ground (arith, once p)) c.2,
    ),
  )

  Ring-inserted :
      {xs : List Ptr}
      → Ring m head xs
      → count new_entry (head ∷ xs) ≡ 0
      → Ring (inserted m head (m.next head) new_entry) head (new_entry ∷ xs)
  Ring-inserted {xs} r fresh = record {
    chain = Chain-inserted xs r.chain r.once fresh;
    once = λ p. ground (arith, r.once p);
    real = ground (arith, r.real);
  }

  Spared-inserted :
      (first : Ptr) (xs : List Ptr)
      → 1 ≤ count first (head ∷ xs)
      → Spared (new_entry ∷ head ∷ xs) m (inserted m head first new_entry)
  unfolding inserted
  Spared-inserted first xs known p out = (ground arith, ground arith)

-- `list_add(head, new_entry)` puts a new node first in the ring of `head`. It reads no `NULL`, and
-- changes the links of no node outside the ring.
pub Ring-list_add :
    (m : Links) (head new_entry : Ptr) (xs : List Ptr)
    → Ring m head xs
    → new_entry ≢ null
    → count new_entry (head ∷ xs) ≡ 0
    → Ends
        (list_add head new_entry m)
        λ _ m'. Ring m' head (new_entry ∷ xs) × Spared (new_entry ∷ head ∷ xs) m m'
Ring-list_add m head new_entry xs r real fresh = (
  tt,
  inserted m head (m.next head) new_entry,
  list_add-run m head new_entry real (ne_null m head xs r head (ground arith))
      (ne_null m head xs r (m.next head) (next_mem m head xs head r.chain)) (ground arith),
  (
    Ring-inserted m head new_entry real r fresh,
    Spared-inserted m head new_entry real (m.next head) xs (next_mem m head xs head r.chain),
  ),
)

-- What both insertions at the tail have in common: `last` is the last node, or `head` itself.
module _ (m : Links) (head new_entry last : Ptr) (xs ys : List Ptr) (real : new_entry ≢ null) where
  add_tail-Ends :
      Ring m head xs
      → m.prev head ≡ last
      → m.next last ≡ head
      → 1 ≤ count last (head ∷ xs)
      → count new_entry (head ∷ xs) ≡ 0
      → Ring (inserted m last head new_entry) head ys
      → Ends
          (list_add_tail head new_entry m)
          λ _ m'. Ring m' head ys × Spared (new_entry ∷ head ∷ xs) m m'
  add_tail-Ends r e n known fresh r' = (
    tt,
    inserted m last head new_entry,
    rw (← e) (
        list_add_tail-run m head new_entry real (ne_null m head xs r head (ground arith))
          (rw e (ne_null m head xs r last known)) (ground arith)),
    (r', unfold inserted in λ p out. (ground arith, ground arith)),
  )

add_tail_of :
    (m : Links) (head new_entry : Ptr) (xs : List Ptr)
    → new_entry ≢ null
    → count new_entry (head ∷ xs) ≡ 0
    → (xs ≡ []) ⊎ ((ys : List Ptr) × (z : Ptr) × (xs ≡ ys ++ z ∷ []))
    → Ring m head xs
    → Ends
        (list_add_tail head new_entry m)
        λ _ m'. Ring m' head (xs ++ new_entry ∷ []) × Spared (new_entry ∷ head ∷ xs) m m'
add_tail_of m head new_entry xs real fresh (inl e) r =
    let r0 : Ring m head [] = rw e at r in
    let ring : Ring (inserted m head (m.next head) new_entry) head (new_entry ∷ []) =
      Ring-inserted m head new_entry real r0 (ground arith) in
    rw e (
      add_tail-Ends m head new_entry head [] (new_entry ∷ []) real r0 r0.chain.1 r0.chain.0
        (ground arith) (ground arith) (rw r0.chain.0 at ring))
add_tail_of m head new_entry xs real fresh (inr (ys, z, e)) r =
    let r1 : Ring m head (ys ++ z ∷ []) = rw e at r in
    let ends : Chain m z [] head = (Chain-split m head ys z [] head r1.chain).1 in
    let fresh1 : count new_entry (head ∷ ys ++ z ∷ []) ≡ 0 = rw e at fresh in
    let rotated : Ring m z (head ∷ ys) = Ring-rotate m head ys z [] r1 in
    let ring : Ring (inserted m z (m.next z) new_entry) z (new_entry ∷ head ∷ ys) =
      Ring-inserted m z new_entry real rotated
        (ground (arith, fresh1, count-append new_entry ys (z ∷ []))) in
    let back : Ring (inserted m z head new_entry) head ((ys ++ z ∷ []) ++ new_entry ∷ []) =
      rw append_assoc (Ring-rotate _ z (new_entry ∷ []) head ys (rw ends.0 at ring)) in
    rw e (
      add_tail-Ends m head new_entry z (ys ++ z ∷ []) ((ys ++ z ∷ []) ++ new_entry ∷ []) real r1
        ends.1 ends.0 (ground (arith, count-append z ys (z ∷ []))) fresh1 back)

-- `list_add_tail(head, new_entry)` puts a new node last in the ring of `head`. It reads no `NULL`,
-- and changes the links of no node outside the ring.
pub Ring-list_add_tail :
    (m : Links) (head new_entry : Ptr) (xs : List Ptr)
    → Ring m head xs
    → new_entry ≢ null
    → count new_entry (head ∷ xs) ≡ 0
    → Ends
        (list_add_tail head new_entry m)
        λ _ m'. Ring m' head (xs ++ new_entry ∷ []) × Spared (new_entry ∷ head ∷ xs) m m'
Ring-list_add_tail m head new_entry xs r real fresh =
    add_tail_of m head new_entry xs real fresh (snoc_cases xs) r

-- `list_init(list)` makes an empty ring of any node, and touches no other node.
pub Ring-list_init :
    (m : Links) (list : Ptr)
    → list ≢ null
    → Ends (list_init list m) λ _ m'. Ring m' list [] × Spared (list ∷ []) m m'
unfolding list_init
Ring-list_init m list real = (
  tt,
  record { prev = put m.prev list list; next = put m.next list list },
  simp (list_init, stepping, ==_ne list null real),
  (
    record { chain = ground arith; once = λ p. ground arith; real = ground arith },
    λ p out. (ground arith, ground arith),
  ),
)
