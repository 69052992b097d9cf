-- ===== src/Kprint.antt =====
-- kernel/console/console.h, kernel/console/kprint.c: the list of the consoles, through the `next`
-- fields of the consoles. A call of a function of a
-- console is an effect. The loops run on fuel.
pub mod Registry
use rix_draft.Base.{
  ℕ, zero, suc, Bool, true, false, Option, none, some, List, [], ◌∷◌, ◌==◌, if◌then◌else◌,
}

abbrev pub null : ℕ
null = 0

pub record Consoles : Type 0 where
  pub console_list : ℕ
  pub next : ℕ → ℕ

abbrev pub link : (ℕ → ℕ) → ℕ → ℕ → ℕ → ℕ
link next p q r = if r == p then q else next r

-- The search of `register_console` from `con` on; `none` is the end of the fuel.
unfoldable pub is_registered : ℕ → (ℕ → ℕ) → ℕ → ℕ → Option Bool
is_registered zero next newcon con = none
is_registered (suc fuel) next newcon con =
    let rest = is_registered fuel next newcon (next con) in
    if con == null then some false else if newcon == con then some true else rest

unfoldable pub register_console : ℕ → ℕ → Consoles → Option Consoles
register_console fuel newcon s = elim (is_registered fuel s.next newcon s.console_list) [
  | none ↦ none
  | some true ↦ some s
  | some false ↦ some (
      if s.console_list == null
      then record { console_list = newcon; next = link s.next newcon s.console_list }
      else record s {
        next = link (link s.next newcon (s.next s.console_list)) s.console_list newcon;
      })
]

-- The search of `unregister_console` from `con` on, with the change of the link.
unfoldable pub bypass : ℕ → (ℕ → ℕ) → ℕ → ℕ → Option (ℕ → ℕ)
bypass zero next delcon con = none
bypass (suc fuel) next delcon con =
    let rest = bypass fuel next delcon (next con) in
    if con == null
    then some next
    else if next con == delcon
    then some (link next con (next delcon))
    else rest

-- The list that `unregister_console` leaves.
unfoldable pub unlink_console : ℕ → ℕ → Consoles → Option Consoles
unlink_console fuel delcon s =
    if s.console_list == delcon
    then some (record s { console_list = s.next delcon })
    else (elim (bypass fuel s.next delcon s.console_list) [
      | none ↦ none
      | some next ↦ some (record s { next = next })
    ])

-- The fields `write` and `exit` of the consoles; 0 is `NULL`.
pub record Operations : Type 0 where
  pub write : ℕ → ℕ
  pub exit : ℕ → ℕ

-- A call through a pointer, with its arguments.
pub record Call : Type 0 where
  pub callback : ℕ
  pub arguments : List ℕ

unfoldable pub console_write : Operations → (con text len : ℕ) → List Call
console_write ops con text len =
    record { callback = ops.write con; arguments = con ∷ text ∷ len ∷ [] } ∷ []

-- The list and the calls.
unfoldable pub unregister_console : ℕ → Operations → ℕ → Consoles → Option (Consoles × List Call)
unfolding unlink_console
unregister_console fuel ops delcon s = elim (unlink_console fuel delcon s) [
  | none ↦ none
  | some s' ↦ some (
    s',
    if ops.exit delcon == 0
        then []
        else record { callback = ops.exit delcon; arguments = delcon ∷ [] } ∷ [],
  )
]
