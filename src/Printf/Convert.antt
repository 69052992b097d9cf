-- ===== src/Printf/Convert.antt =====
-- printf.c: the `switch` of `__printf_internal`. The code falls through from `s` to `o`, from
-- `print_signed` to `print_unsigned`, and from there to `default`.
use rix_draft.Base.{
  ℕ, zero, suc, ◌+◌, ◌-◌, not, ◌&&◌, ◌||◌, Option, none, some, List, [], ◌∷◌, ◌++◌, bit_or, bit_and,
  u8, ltb, ◌==◌, if◌then◌else◌, length, min,
}
use rix_draft.Printf.Reader.{Arg, num, str, Directive, caps, left, sign, alt, ◌>>=◌}
pub use rix_draft.Printf.Reader.{Arg}

-- What lives across the rounds of the outer loop. `out` is what was handed to `putc`.
pub record Printer : Type 0 where
  pub flags : ℕ
  pub args : List Arg
  pub out : List ℕ
  pub printed : ℕ

abbrev pub spaces : ℕ → List ℕ
spaces zero = []
spaces (suc n) = b' ' ∷ spaces n

-- The loop over the bytes of a string, with `room` bytes left to the precision and the width.
abbrev pub bounded : ℕ → List ℕ → List ℕ
bounded zero s = []
bounded (suc room) [] = []
bounded (suc room) (c ∷ s) = c ∷ bounded room s

-- `"<null>"`
abbrev pub null_text : List ℕ
null_text = b'<' ∷ b'n' ∷ b'u' ∷ b'l' ∷ b'l' ∷ b'>' ∷ []

-- `case 's'` up to the fall through: a string without its NUL, `NULL` as `none`.
unfoldable pub put_string : Directive → Option (List ℕ) → Printer → Printer
put_string d s p =
    let text : List ℕ = elim s [ none ↦ null_text | some bytes ↦ bytes ] in
    let precision = if d.precision == 0xffff_ffff then 0x7fff_ffff else d.precision in
    let ladjust = not (bit_and d.flags left == 0) in
    let room = if ltb 0 d.width then min precision d.width else precision in
    let body = bounded room text in
    let before =
      if ltb 0 d.width && not ladjust then spaces (d.width - min precision (length text)) else [] in
    let behind = if ladjust then spaces (d.width - length body) else [] in
    record p {
      out = p.out ++ before ++ body ++ behind;
      printed = p.printed + length before + length body + length behind;
    }

-- `va_arg` at an integer type.
abbrev pub num_arg : List Arg → Option (ℕ × List Arg)
num_arg (num n ∷ args) = some (n, args)
num_arg _ = none

abbrev pub put_byte : ℕ → Printer → Printer
put_byte c p = record p { out = p.out ++ c ∷ [] }

-- From `print_unsigned` on: the number is read, and the conversion's letter is put.
abbrev pub from_unsigned : ℕ → Printer → Option Printer
from_unsigned c p = do (n, args) ← num_arg p.args; some (put_byte c (record p { args = args }))

-- From `print_signed` on, into `print_unsigned`.
abbrev pub from_signed : ℕ → Printer → Option Printer
from_signed c p = do (n, args) ← num_arg p.args; from_unsigned c (record p { args = args })

abbrev pub with_flag : ℕ → Printer → Printer
with_flag f p = record p { flags = bit_or p.flags f }

-- `case 'x'`
abbrev pub from_hex : ℕ → Printer → Option Printer
from_hex c p = some (if bit_and p.flags alt == 0 then p else put_byte c p)

abbrev pub str_arg : List Arg → Option (Option (List ℕ) × List Arg)
str_arg (str s ∷ args) = some (s, args)
str_arg _ = none

unfoldable pub convert : Directive → Printer → Option Printer
unfolding put_string
convert d p0 =
    let c = d.c in
    let p = record p0 { flags = d.flags; args = d.args } in
    if c == b'c'
    then (do
      (n, args) ← num_arg p.args
      some (record p { args = args; out = p.out ++ u8 n ∷ []; printed = p.printed + 1 }))
    else if c == b's'
    then (do
      (s, args) ← str_arg p.args
      from_unsigned c (put_string d s (record p { args = args })))
    else if (c == b'o') || (c == b'O')
    then from_unsigned c p
    else if (c == b'i') || (c == b'd')
    then from_signed c (with_flag sign p)
    else if c == b'U'
    then from_unsigned c (with_flag caps p)
    else if c == b'u'
    then from_unsigned c p
    else if c == b'p'
    then from_hex c (with_flag caps (with_flag alt p))
    else if c == b'X'
    then from_hex c (with_flag caps p)
    else if c == b'x'
    then from_hex c p
    else some (put_byte c p)
