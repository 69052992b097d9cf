-- ===== src/LinkedList/Split.antt =====
-- list.h: what `list_split_after` does to a ring.
use rix_draft.Base.{
  ◌+◌, ◌≤◌, ◌≡◌, ◌≢◌, List, [], ◌∷◌, ◌++◌, some, count, count-append, arith, ==_ne, ◌==◌, true,
}
use rix_draft.LinkedList.{Ptr, null, Links, put, stepping, list_split_after}
use rix_draft.LinkedList.Ring.{
  Chain, Chain-split, Chain-frame, Chain-join, Chain-end, last_mem, Ring, Ring-Spared, Ends,
  ne_null,
}
use rix_draft.LinkedList.Insert.{Ring-list_init}

same_ptr : (p : Ptr) → (p == p) ≡ true
same_ptr p = ground arith

-- The links behind the split of the ring of `list` after `pos`, with `split_to` the new head of the
-- nodes from `first` to `last`.
divided : Links → (list pos split_to first last : Ptr) → Links
divided m list pos split_to first last = record {
  prev = put (put (put m.prev split_to last) first split_to) list pos;
  next = put (put (put m.next last split_to) split_to first) pos list;
}

module _ (m : Links) (list pos split_to x : Ptr) (ys zs : List Ptr) (fresh : split_to ≢ null)
    (apart : count split_to (list ∷ ys ++ pos ∷ x ∷ zs) ≡ 0)
    (r : Ring m list (ys ++ pos ∷ x ∷ zs)) where
  once_apart : (p : Ptr) → count p (split_to ∷ list ∷ pos ∷ x ∷ zs) + count p ys ≤ 1
  once_apart p = ground (
    arith,
    r.once p,
    apart,
    count-append p ys (pos ∷ x ∷ zs),
    count-append split_to ys (pos ∷ x ∷ zs),
  )

  real_ends : count null (list ∷ pos ∷ x ∷ zs) + count null ys ≡ 0
  real_ends = ground (arith, r.real, count-append null ys (pos ∷ x ∷ zs))

  behind : Chain m pos (x ∷ zs) list
  behind = (Chain-split m list ys pos (x ∷ zs) list r.chain).1

  last_behind : 1 ≤ count (m.prev list) (x ∷ zs)
  last_behind = last_mem m x zs list behind.2

  list_split_after-run :
      list_split_after list pos split_to m ≡ some (tt, divided m list pos split_to x (m.prev list))
  unfolding list_split_after divided
  list_split_after-run = simp (
    list_split_after,
    stepping,
    behind.0,
    ==_ne x list (ground (arith, once_apart x)),
    ==_ne pos null (ground (arith, real_ends)),
    ==_ne list null (ground (arith, real_ends)),
    ==_ne x null (ground (arith, real_ends)),
    ==_ne split_to null fresh,
    same_ptr split_to,
    ==_ne (m.prev list) null (ground (arith, real_ends, last_behind)),
    ==_ne pos (m.prev list) (ground (arith, once_apart pos, last_behind)),
    ==_ne split_to (m.prev list) (ground (arith, once_apart split_to, last_behind)),
  )

  Ring-divided :
      Ring (divided m list pos split_to x (m.prev list)) list (ys ++ pos ∷ [])
      × Ring (divided m list pos split_to x (m.prev list)) split_to (x ∷ zs)
  unfolding divided
  Ring-divided = (
    record {
      chain =
          Chain-join _ list ys pos [] list
            (Chain-frame m _ list ys pos (λ p h. ground (arith, once_apart p, last_behind))
              (λ p h. ground (arith, once_apart p))
              (Chain-split m list ys pos (x ∷ zs) list r.chain).0)
            (ground arith, ground arith);
      once = λ p. ground (arith, once_apart p, count-append p ys (pos ∷ []));
      real = ground (arith, real_ends, count-append null ys (pos ∷ []));
    },
    record {
      chain = (
        ground (arith, once_apart split_to),
        ground (arith, once_apart x),
        Chain-end m _ x zs list split_to (λ p. ground (arith, once_apart p))
            (λ p h ne. ground (arith, once_apart p)) (λ p h. ground (arith, once_apart p))
            (ground (arith, once_apart (m.prev list), last_behind))
            (ground (arith, once_apart split_to, last_behind)) behind.2,
      );
      once = λ p. ground (arith, once_apart p);
      real = ground (arith, real_ends);
    },
  )

-- `list_split_after(list, pos, split_to)` cuts a ring behind one of its nodes: the nodes up to `pos`
-- stay, and those behind it make the ring of the new head `split_to`, all in their order.
pub Ring-list_split_after :
    (m : Links) (list pos split_to : Ptr) (ys zs : List Ptr)
    → Ring m list (ys ++ pos ∷ zs)
    → split_to ≢ null
    → count split_to (list ∷ ys ++ pos ∷ zs) ≡ 0
    → Ends
        (list_split_after list pos split_to m)
        λ _ m'. Ring m' list (ys ++ pos ∷ []) × Ring m' split_to zs
Ring-list_split_after m list pos split_to ys [] r fresh apart =
    let (u, m', run, made) = Ring-list_init m split_to fresh in
    let last = (Chain-split m list ys pos [] list r.chain).1.0 in
    let real =
      ne_null m list (ys ++ pos ∷ []) r pos (ground (arith, count-append pos ys (pos ∷ []))) in
    let kept =
      Ring-Spared (split_to ∷ []) m m' list (ys ++ pos ∷ []) (λ p h. ground (arith, apart)) made.1
        r in
    (
      tt,
      m',
      (unfold list_split_after in
          simp (list_split_after, stepping, ==_ne pos null real, last, same_ptr list, run)),
      (kept, made.0),
    )
Ring-list_split_after m list pos split_to ys (x ∷ zs) r fresh apart = (
  tt,
  divided m list pos split_to x (m.prev list),
  list_split_after-run m list pos split_to x ys zs fresh apart r,
  Ring-divided m list pos split_to x ys zs fresh apart r,
)
