-- ===== src/LinkedList.antt =====
-- list.h: the circular doubly linked list. A `list_node_t *` is an address, and the links of all
-- nodes are a memory of two functions, so that nodes may be shared and aliased as in C. Reading or
-- writing through `NULL` is a fault, `none`.
pub mod Ring
pub mod Insert
pub mod Delete
pub mod Replace
pub mod Query
pub mod Splice
pub mod Split
pub mod Entry
use rix_draft.Base.{
  ℕ, zero, suc, ◌+◌, Bool, true, false, ◌&&◌, Option, none, some, ◌==◌, if◌then◌else◌,
}

abbrev pub Ptr : Type 0
Ptr = ℕ

abbrev pub null : Ptr
null = 0

-- The `prev` and the `next` field of every node.
pub record Links : Type 0 where
  pub prev : Ptr → Ptr
  pub next : Ptr → Ptr

abbrev pub Cmd : Type 0 → Type 0
Cmd A = Links → Option (A × Links)

abbrev pub pure : {A : Type 0} → A → Cmd A
pure a m = some (a, m)

infixl 5 ◌>>=◌ ◌>>◌
abbrev pub ◌>>=◌ : {A B : Type 0} → Cmd A → (A → Cmd B) → Cmd B
◌>>=◌ c k m = elim (c m) [ none ↦ none | some (a, m') ↦ k a m' ]

abbrev pub ◌>>◌ : {B : Type 0} → Cmd (Unit {0}) → Cmd B → Cmd B
c >> k = c >>= λ _. k

abbrev pub put : (Ptr → Ptr) → Ptr → Ptr → Ptr → Ptr
put f p v q = if q == p then v else f q

abbrev pub write_next : Links → Ptr → Ptr → Links
write_next m p q = record m { next = put m.next p q }

abbrev pub write_prev : Links → Ptr → Ptr → Links
write_prev m p q = record m { prev = put m.prev p q }

abbrev pub get_next : Ptr → Cmd Ptr
get_next p m = if p == null then none else some (m.next p, m)

abbrev pub get_prev : Ptr → Cmd Ptr
get_prev p m = if p == null then none else some (m.prev p, m)

abbrev pub set_next : Ptr → Ptr → Cmd (Unit {0})
set_next p q m = if p == null then none else some (tt, write_next m p q)

abbrev pub set_prev : Ptr → Ptr → Cmd (Unit {0})
set_prev p q m = if p == null then none else some (tt, write_prev m p q)

-- What a command computes through, for `simp`.
pub ruleset stepping = (◌>>=◌, ◌>>◌, get_next, get_prev, set_next, set_prev, if◌then◌else◌)

-- `list->prev = list->next = list`
unfoldable pub list_init : Ptr → Cmd (Unit {0})
list_init list = do set_next list list; set_prev list list

unfoldable pub list_clear : Ptr → Cmd (Unit {0})
list_clear entry = do set_next entry null; set_prev entry null

unfoldable pub list_is_empty : Ptr → Cmd Bool
list_is_empty list = do p ← get_prev list; n ← get_next list; pure ((p == list) && (n == list))

unfoldable pub list_is_list : Ptr → Cmd Bool
list_is_list head = do
  n ← get_next head
  p ← get_prev head
  pure (if (n == null) && (p == null) then false else true)

unfoldable pub list_add : Ptr → Ptr → Cmd (Unit {0})
list_add head new_entry = do
  n ← get_next head
  set_next new_entry n
  set_prev new_entry head
  n' ← get_next head
  set_prev n' new_entry
  set_next head new_entry

unfoldable pub list_add_tail : Ptr → Ptr → Cmd (Unit {0})
list_add_tail head new_entry = do
  p ← get_prev head
  set_prev new_entry p
  set_next new_entry head
  p' ← get_prev head
  set_next p' new_entry
  set_prev head new_entry

unfoldable pub list_replace : Ptr → Ptr → Cmd (Unit {0})
list_replace old_entry new_entry = do
  n ← get_next old_entry
  set_next new_entry n
  p ← get_prev old_entry
  set_prev new_entry p
  p' ← get_prev old_entry
  set_next p' new_entry
  n' ← get_next old_entry
  set_prev n' new_entry

unfoldable pub list_delete : Ptr → Cmd (Unit {0})
list_delete entry = do
  n ← get_next entry
  p ← get_prev entry
  set_prev n p
  p' ← get_prev entry
  n' ← get_next entry
  set_next p' n'
  set_next entry null
  set_prev entry null

-- `none` is the `NULL` that an empty list gives.
unfoldable pub list_remove_head : Ptr → Cmd (Option Ptr)
list_remove_head head = do
  n ← get_next head
  if n == head then pure none else do item ← get_next head; list_delete item; pure (some item)

unfoldable pub list_remove_tail : Ptr → Cmd (Option Ptr)
list_remove_tail list = do
  p ← get_prev list
  if p == list then pure none else do item ← get_prev list; list_delete item; pure (some item)

unfoldable pub list_peek_head : Ptr → Cmd (Option Ptr)
list_peek_head list = do
  n ← get_next list
  if n == list then pure none else do n' ← get_next list; pure (some n')

unfoldable pub list_peek_tail : Ptr → Cmd (Option Ptr)
list_peek_tail list = do
  p ← get_prev list
  if p == list then pure none else do p' ← get_prev list; pure (some p')

-- `list_for_each` with a counter, at `pos`, on fuel: `none` is a fault or the end of the fuel.
unfoldable pub count_from : ℕ → Ptr → Ptr → ℕ → Cmd ℕ
count_from zero node pos cnt m = none
count_from (suc fuel) node pos cnt m =
    let rest : Option (ℕ × Links) =
      (do pos' ← get_next pos; count_from fuel node pos' (cnt + 1)) m in
    if pos == node then some (cnt, m) else rest

unfoldable pub list_length : ℕ → Ptr → Cmd ℕ
list_length fuel node = do pos ← get_next node; count_from fuel node pos 0

unfoldable pub list_split_after : (list pos split_to : Ptr) → Cmd (Unit {0})
list_split_after list pos split_to = do
  n ← get_next pos
  if n == list then list_init split_to else do
    p ← get_prev list
    set_prev split_to p
    p' ← get_prev split_to
    set_next p' split_to
    n' ← get_next pos
    set_next split_to n'
    n'' ← get_next split_to
    set_prev n'' split_to
    set_next pos list
    set_prev list pos

unfoldable pub list_splice_after : (splice_from pos : Ptr) → Cmd (Unit {0})
list_splice_after splice_from pos = do
  empty ← list_is_empty splice_from
  if empty then pure tt else do
    first ← get_next splice_from
    set_prev first pos
    last ← get_prev splice_from
    n ← get_next pos
    set_next last n
    n' ← get_next pos
    last' ← get_prev splice_from
    set_prev n' last'
    first' ← get_next splice_from
    set_next pos first'
    list_init splice_from

unfoldable pub list_move : (old_list new_list : Ptr) → Cmd (Unit {0})
list_move old_list new_list = do list_init new_list; list_splice_after old_list new_list
