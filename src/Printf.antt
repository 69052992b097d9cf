-- ===== src/Printf.antt =====
-- printf.c: `__printf_internal`. A text is the list of its bytes with its NUL; a `fmt` is what is
-- left of it, and reading behind the NUL, as after `%5`, is undefined behaviour, a fault that ends the
-- run here. `printed` is an `int` that only grows; where it has passed 2 ^ 31 - 1 in the end, it has
-- overflowed, which is a fault too. The calls of `putc` are the list of the bytes
-- put. The arguments of the call are a list, and `va_arg` at another type is a fault. `flags` has
-- no initial value in the code, so the value that it starts with is a parameter.
pub mod Reader
pub mod Convert
pub mod Total
pub mod Text
pub mod Buffer
pub mod Calls
pub mod Strings
use rix_draft.Base.{
  ℕ, zero, suc, ◌+◌, ◌-◌, ◌*◌, Bool, true, false, Option, none, some, List, [], ◌∷◌, ◌++◌, ◌==◌,
  if◌then◌else◌, ltb,
}
use rix_draft.Printf.Reader.{Directive, directive}
use rix_draft.Printf.Convert.{Arg, Printer, convert}

pub data Outcome : Type 0 where
  done : Printer → Outcome
  fault out_of_fuel : Outcome

-- The outer loop, which ends at the NUL.
unfoldable pub print_loop : ℕ → List ℕ → Printer → Outcome
print_loop zero fmt p = out_of_fuel
print_loop (suc fuel) [] p = fault
print_loop (suc fuel) (c ∷ fmt) p = elim (c == 0) [
  | true ↦ if ltb p.printed 0x8000_0000 then done p else fault
  | false ↦ elim (c == b'%') [
    | false ↦ print_loop fuel fmt (record p { out = p.out ++ c ∷ []; printed = p.printed + 1 })
    | true ↦ elim (directive fmt p.flags p.args) [
      | none ↦ fault
      | some d ↦ elim (convert d p) [ none ↦ fault | some p' ↦ print_loop fuel d.rest p' ]
    ]
  ]
]
