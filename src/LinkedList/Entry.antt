-- ===== src/LinkedList/Entry.antt =====
-- list.h: the macros that give the structure a node is in, and the iteration over the structures. The
-- offset of the node in its structure is `offset`.
use rix_draft.Base.{
  ℕ, zero, suc, ◌<◌, ◌≡◌, refl, ap, Option, none, some, List, [], ◌∷◌, map, sub64, count, length,
  true, false, ◌==◌, if◌then◌else◌, arith, ==_ne, ◌∙◌,
}
use rix_draft.LinkedList.{
  Ptr, null, Links, Cmd, pure, ◌>>=◌, stepping, get_next, list_is_empty, list_remove_head,
  list_remove_tail, list_peek_head, list_peek_tail,
}
use rix_draft.LinkedList.Ring.{Chain, Ring, Spared, Ends, ne_null}
use rix_draft.LinkedList.Query.{Ring-list_is_empty}
use rix_draft.LinkedList.Delete.{Ring-list_remove_head}

module _ (offset : ℕ) where
  abbrev pub container_of : Ptr → Ptr
  container_of node = sub64 node offset

  abbrev pub container_or_null : Option Ptr → Ptr
  container_or_null none = null
  container_or_null (some node) = container_of node

  unfoldable pub list_remove_head_type : (head : Ptr) → Cmd Ptr
  unfolding list_remove_head
  list_remove_head_type head = do node ← list_remove_head head; pure (container_or_null node)

  unfoldable pub list_remove_tail_type : (list : Ptr) → Cmd Ptr
  unfolding list_remove_tail
  list_remove_tail_type list = do node ← list_remove_tail list; pure (container_or_null node)

  unfoldable pub list_peek_head_type : (list : Ptr) → Cmd Ptr
  unfolding list_peek_head
  list_peek_head_type list = do node ← list_peek_head list; pure (container_or_null node)

  unfoldable pub list_peek_tail_type : (list : Ptr) → Cmd Ptr
  unfolding list_peek_tail
  list_peek_tail_type list = do node ← list_peek_tail list; pure (container_or_null node)

  -- The structures that `list_for_each_entry` visits from a node on; `none` is also the end of the
  -- fuel.
  unfoldable pub entries_from : (fuel : ℕ) (head node : Ptr) → Cmd (List Ptr)
  entries_from zero head node m = none
  entries_from (suc fuel) head node m =
      let rest : Option (List Ptr × Links) =
        (do
          next ← get_next node
          others ← entries_from fuel head next
          pure (container_of node ∷ others))
          m in
      if node == head then some ([], m) else rest

  unfoldable pub list_for_each_entry : (fuel : ℕ) (head : Ptr) → Cmd (List Ptr)
  unfolding entries_from
  list_for_each_entry fuel head = do node ← get_next head; entries_from fuel head node

  -- The loop that removes the first structure while the list is not empty, and what it removes.
  unfoldable pub remove_all : (fuel : ℕ) (head : Ptr) → Cmd (List Ptr)
  unfolding list_remove_head_type list_is_empty
  remove_all zero head m = none
  remove_all (suc fuel) head m =
      let rest : Option (List Ptr × Links) =
        (do
          entry ← list_remove_head_type head
          others ← remove_all fuel head
          pure (entry ∷ others))
          m in
      (do empty ← list_is_empty head; λ m'. if empty then some ([], m') else rest) m

  module _ (m : Links) (head : Ptr) where
    entries_from-Chain :
        (fuel : ℕ) (a : Ptr) (xs : List Ptr)
        → Chain m a xs head
        → count head xs ≡ 0
        → count null xs ≡ 0
        → length xs < fuel
        → entries_from fuel head (m.next a) m ≡ some (map container_of xs, m)
    unfolding entries_from
    entries_from-Chain zero a xs c h n f = absurd (omega arith)
    entries_from-Chain (suc fuel) a [] c h n f =
        let found : (head == head) ≡ true = ground arith in rw (c.0, found) refl
    entries_from-Chain (suc fuel) a (x ∷ xs) c h n f =
        let other : (x == head) ≡ false = ground arith in
        let real : (x == null) ≡ false = ground arith in
        let rest = entries_from-Chain fuel x xs c.2 (ground arith) (ground arith) (omega arith) in
        simp (c.0, other, stepping, real, rest)

    -- `list_for_each_entry` visits the structure of each node of a ring once, in order, and ends. The
    -- fuel is one round more than there are nodes.
    pub Ring-list_for_each_entry :
        (xs : List Ptr) (fuel : ℕ)
        → Ring m head xs
        → length xs < fuel
        → list_for_each_entry fuel head m ≡ some (map container_of xs, m)
    unfolding list_for_each_entry
    Ring-list_for_each_entry xs fuel r f =
        let real = ne_null m head xs r head (ground arith) in
        simp (
          list_for_each_entry,
          stepping,
          ==_ne head null real,
          entries_from-Chain fuel head xs r.chain (ground (arith, r.once head))
              (ground (arith, r.real)) f,
        )

  -- Removing the first structure until the list is empty gives the structures of all nodes, in order,
  -- and leaves an empty ring; no node outside the ring changes. The fuel is one round more than there
  -- are nodes.
  pub Ring-remove_all :
      (fuel : ℕ) (m : Links) (head : Ptr) (xs : List Ptr)
      → Ring m head xs
      → length xs < fuel
      → Ends
          (remove_all fuel head m)
          λ got m'. (got ≡ map container_of xs) × Ring m' head [] × Spared (head ∷ xs) m m'
  unfolding remove_all list_remove_head_type
  Ring-remove_all zero m head xs r f = absurd (omega arith)
  Ring-remove_all (suc fuel) m head [] r f = (
    [],
    m,
    simp (remove_all, stepping, Ring-list_is_empty m head [] r),
    (refl, r, λ p out. (refl, refl)),
  )
  Ring-remove_all (suc fuel) m head (x ∷ xs) r f =
      let (got, m1, run1, taken) = Ring-list_remove_head m head x xs r in
      let (rest, m2, run2, after) = Ring-remove_all fuel m1 head xs taken.1 (omega arith) in
      (
        container_of x ∷ rest,
        m2,
        simp (
          remove_all,
          list_remove_head_type,
          stepping,
          Ring-list_is_empty m head (x ∷ xs) r,
          run1,
          taken.0,
          run2,
        ),
        (
          ap (λ t. container_of x ∷ t) after.0,
          after.1,
          λ p out.
              let first = taken.4 p out in
              let second = after.2 p (ground arith) in (second.0 ∙ first.0, second.1 ∙ first.1),
        ),
      )
