-- ===== src/LinkedList/Splice.antt =====
-- list.h: what `list_splice_after` and `list_move` do to rings.
use mathlib.Core.List.{append-nil}
use rix_draft.Base.{
  ◌+◌, ◌≤◌, ◌≡◌, ◌≢◌, List, [], ◌∷◌, ◌++◌, some, ◌&&◌, count, count-append, arith, ==_ne,
}
use rix_draft.LinkedList.{
  Ptr, null, Links, put, stepping, list_init, list_is_empty, list_splice_after, list_move,
}
use rix_draft.LinkedList.Ring.{
  Chain, Chain-frame, Chain-join, next_mem, Chain-end, last_mem, Ring, Ring-Spared, Ends, ne_null,
}
use rix_draft.LinkedList.Insert.{Ring-list_init}
use rix_draft.LinkedList.Query.{Ring-list_is_empty}

-- The links behind the splice of the nodes from `first` to `last` between `pos` and `behind`.
spliced : Links → (splice_from pos first last behind : Ptr) → Links
spliced m s pos first last behind = record {
  prev = put (put (put m.prev first pos) behind last) s s;
  next = put (put (put m.next last behind) pos first) s s;
}

module _ (m : Links) (s pos x : Ptr) (xs ys : List Ptr) (from : Ring m s (x ∷ xs))
    (at_pos : Ring m pos ys)
    (apart : (p : Ptr) → count p (s ∷ x ∷ xs) + count p (pos ∷ ys) ≤ 1) where
  list_splice_after-run :
      list_splice_after s pos m ≡ some (tt, spliced m s pos x (m.prev s) (m.next pos))
  unfolding list_splice_after list_init list_is_empty spliced
  list_splice_after-run =
      let last = last_mem m x xs s from.chain.2 in
      let behind = next_mem m pos ys pos at_pos.chain in
      simp (
        list_splice_after,
        list_is_empty,
        list_init,
        stepping,
        ◌&&◌,
        from.chain.0,
        ==_ne s null (ne_null m s (x ∷ xs) from s (ground arith)),
        ==_ne x null (ne_null m s (x ∷ xs) from x (ground arith)),
        ==_ne pos null (ne_null m pos ys at_pos pos (ground arith)),
        ==_ne (m.prev s) null (ne_null m s (x ∷ xs) from (m.prev s) (ground (arith, last))),
        ==_ne (m.next pos) null (ne_null m pos ys at_pos (m.next pos) (ground (arith, behind))),
        ==_ne (m.prev s) s (ground (arith, from.once s, last)),
        ==_ne s x (ground (arith, from.once s)),
        ==_ne pos (m.prev s) (ground (arith, apart pos, last)),
        ==_ne s (m.prev s) (ground (arith, from.once s, last)),
      )

  Chain-spliced :
      (zs : List Ptr)
      → Chain m pos zs pos
      → ((p : Ptr) → count p (s ∷ x ∷ xs) + count p (pos ∷ zs) ≤ 1)
      → Chain (spliced m s pos x (m.prev s) (m.next pos)) pos (x ∷ xs ++ zs) pos
  unfolding spliced
  Chain-spliced [] c apart' = (
    ground (arith, apart' pos, apart' s),
    ground (arith, apart' x),
    rw append-nil (
        Chain-end m _ x xs s pos (λ p. ground (arith, apart' p))
          (λ p h ne. ground (arith, apart' p)) (λ p h. ground (arith, apart' p))
          (ground (arith, apart' (m.prev s), last_mem m x xs s from.chain.2))
          (ground (arith, apart' pos)) from.chain.2),
  )
  Chain-spliced (y ∷ zs) c apart' = (
    ground (arith, apart' pos, apart' s),
    ground (arith, apart' x),
    Chain-join _ x xs y zs pos
        (Chain-end m _ x xs s y (λ p. ground (arith, apart' p)) (λ p h ne. ground (arith, apart' p))
          (λ p h. ground (arith, apart' p))
          (ground (arith, apart' (m.prev s), last_mem m x xs s from.chain.2))
          (ground (arith, apart' y)) from.chain.2)
        (Chain-frame m _ y zs pos (λ p h. ground (arith, apart' p, last_mem m x xs s from.chain.2))
          (λ p h. ground (arith, apart' p)) c.2),
  )

  Ring-spliced :
      Ring (spliced m s pos x (m.prev s) (m.next pos)) pos (x ∷ xs ++ ys)
      × Ring (spliced m s pos x (m.prev s) (m.next pos)) s []
  Ring-spliced = (
    record {
      chain = Chain-spliced ys at_pos.chain apart;
      once = λ p. ground (arith, apart p, count-append p xs ys);
      real = ground (arith, from.real, at_pos.real, count-append null xs ys);
    },
    record {
      chain = unfold spliced in (ground arith, ground arith);
      once = λ p. ground (arith, apart p);
      real = ground (arith, from.real);
    },
  )

-- The nodes of two rings lie apart.
abbrev pub Apart : List Ptr → List Ptr → Type 0
Apart xs ys = (p : Ptr) → count p xs + count p ys ≤ 1

-- `list_splice_after(splice_from, pos)` moves all nodes of one ring behind `pos` in another, in
-- their order, and leaves the first ring empty.
pub Ring-list_splice_after :
    (m : Links) (splice_from pos : Ptr) (xs ys : List Ptr)
    → Ring m splice_from xs
    → Ring m pos ys
    → Apart (splice_from ∷ xs) (pos ∷ ys)
    → Ends
        (list_splice_after splice_from pos m)
        λ _ m'. Ring m' pos (xs ++ ys) × Ring m' splice_from []
Ring-list_splice_after m s pos [] ys from at_pos apart = (
  tt,
  m,
  (unfold list_splice_after in simp (list_splice_after, stepping, Ring-list_is_empty m s [] from)),
  (at_pos, from),
)
Ring-list_splice_after m s pos (x ∷ xs) ys from at_pos apart = (
  tt,
  spliced m s pos x (m.prev s) (m.next pos),
  list_splice_after-run m s pos x xs ys from at_pos apart,
  Ring-spliced m s pos x xs ys from at_pos apart,
)

-- `list_move(old_list, new_list)` moves all nodes of a ring to a fresh head, and leaves the old
-- ring empty.
pub Ring-list_move :
    (m : Links) (old_list new_list : Ptr) (xs : List Ptr)
    → Ring m old_list xs
    → new_list ≢ null
    → count new_list (old_list ∷ xs) ≡ 0
    → Ends (list_move old_list new_list m) λ _ m'. Ring m' new_list xs × Ring m' old_list []
unfolding list_move
Ring-list_move m old_list new_list xs r real fresh =
    let (u, m1, run1, made) = Ring-list_init m new_list real in
    let kept : Ring m1 old_list xs =
      Ring-Spared (new_list ∷ []) m m1 old_list xs (λ p h. ground (arith, fresh)) made.1 r in
    let (v, m2, run2, after) =
      Ring-list_splice_after m1 old_list new_list xs [] kept made.0
        (λ p. ground (arith, r.once p)) in
    (tt, m2, simp (list_move, stepping, run1, run2), (rw append-nil at (after.0), after.1))
