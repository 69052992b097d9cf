-- ===== src/Examples/Lists.antt =====
-- list.h and kprint.c: the theorems about lists at a ring and at a list of consoles.
use rix_draft.Base.{
  List, ◌+◌, ◌≤◌, ◌≡◌, refl, ◌⊎◌, [], ◌∷◌, some, ◌==◌, if◌then◌else◌, arith, count,
}
use rix_draft.LinkedList.{null, Links, list_add, list_delete, list_splice_after}
use rix_draft.LinkedList.Ring.{Ring, Spared, Ends}
use rix_draft.LinkedList.Insert.{Ring-list_add}
use rix_draft.LinkedList.Delete.{Ring-list_delete}
use rix_draft.LinkedList.Splice.{Ring-list_splice_after}
use rix_draft.Kprint.{Consoles, Operations, Call, register_console, unregister_console}
use rix_draft.Kprint.Registry.{Lists, register_console_lem, unregister_console-register_console}

-- The ring of head 1 with the nodes 2 and 3, and the ring of head 4 with the node 5.
abbrev links : Links
links = record {
  next = λ p.
      if p == 1
      then 2
      else if p == 2
      then 3
      else if p == 3
      then 1
      else if p == 4
      then 5
      else if p == 5
      then 4
      else null;
  prev = λ p.
      if p == 1
      then 3
      else if p == 2
      then 1
      else if p == 3
      then 2
      else if p == 4
      then 5
      else if p == 5
      then 4
      else null;
}

links-Ring : Ring links 1 (2 ∷ 3 ∷ [])
links-Ring = record {
  chain = (refl, refl, (refl, refl, (refl, refl)));
  once = λ p. ground arith;
  real = refl;
}

small-Ring : Ring links 4 (5 ∷ [])
small-Ring = record { chain = (refl, refl, (refl, refl)); once = λ p. ground arith; real = refl }

list_add_example :
    Ends (list_add 1 9 links) λ _ m. Ring m 1 (9 ∷ 2 ∷ 3 ∷ []) × Spared (9 ∷ 1 ∷ 2 ∷ 3 ∷ []) links m
list_add_example = Ring-list_add links 1 9 (2 ∷ 3 ∷ []) links-Ring (omega arith) refl

list_delete_example : Ends (list_delete 3 links) λ _ m.
    Ring m 1 (2 ∷ []) × (m.next 3 ≡ null) × (m.prev 3 ≡ null) × Spared (1 ∷ 2 ∷ 3 ∷ []) links m
list_delete_example = Ring-list_delete links 1 (2 ∷ []) 3 [] links-Ring

list_splice_after_example :
    Ends (list_splice_after 1 4 links) λ _ m. Ring m 4 (2 ∷ 3 ∷ 5 ∷ []) × Ring m 1 []
list_splice_after_example =
    Ring-list_splice_after links 1 4 (2 ∷ 3 ∷ []) (5 ∷ []) links-Ring small-Ring (λ p. ground arith)

-- The consoles 7 and 8.
abbrev consoles : Consoles
consoles = record { console_list = 7; next = λ p. if p == 7 then 8 else 0 }

consoles-Lists : Lists consoles (7 ∷ 8 ∷ [])
consoles-Lists = (refl, (λ e. ground arith), refl, (refl, (λ e. ground arith), refl, refl))

register_console_example :
    (s' : Consoles) × (register_console 3 9 consoles ≡ some s')
    × (((1 ≤ count 9 (7 ∷ 8 ∷ [])) × (s' ≡ consoles))
        ⊎ ((count 9 (7 ∷ 8 ∷ []) ≡ 0) × Lists s' (7 ∷ 9 ∷ 8 ∷ [])))
register_console_example =
    register_console_lem 3 9 consoles (7 ∷ 8 ∷ []) consoles-Lists (omega arith) (omega arith)

-- Calls of the consoles at 100 and 200 and on.
abbrev operations : Operations
operations = record { write = λ con. 100 + con; exit = λ con. 200 + con }

unregister_console-register_console_example :
    (s1 s2 : Consoles) × (calls : List Call) × (register_console 3 9 consoles ≡ some s1)
    × (unregister_console 3 operations 9 s1 ≡ some (s2, calls))
    × Lists s2 (7 ∷ 8 ∷ [])
unregister_console-register_console_example =
    unregister_console-register_console 3 9 operations consoles (7 ∷ 8 ∷ []) consoles-Lists
      (omega arith) refl (omega arith)
