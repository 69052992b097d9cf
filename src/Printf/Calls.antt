-- ===== src/Printf/Calls.antt =====
-- printf.c: `vsnprintf` as a whole and the functions that only hand on to it.
use rix_draft.Base.{
  ℕ, suc, ◌+◌, ◌-◌, ◌^◌, ◌<◌, ◌≤◌, ◌≡◌, refl, Option, none, some, List, [], ◌∷◌, ◌++◌, arith,
  length, length-append, get_elem?, min, lt→ltb,
}
use rix_draft.Printf.Reader.{Arg}
use rix_draft.Printf.Convert.{Printer}
use rix_draft.Printf.{Outcome, done, fault, out_of_fuel, print_loop}
use rix_draft.Printf.Text.{IsPlain, print_loop-plain}
use rix_draft.Printf.Buffer.{fill_buffer, fill_buffer_lem}

-- The result of the printer, into a buffer: what is returned, and the buffer.
abbrev pub into_buffer : ℕ → (ℕ → ℕ) → Outcome → Option (ℕ × (ℕ → ℕ))
into_buffer size str (done p) = some (p.printed, fill_buffer size p.out str)
into_buffer size str fault = none
into_buffer size str out_of_fuel = none

-- `flags` is the value that the uninitialised variable holds. `none` is a read behind the format or
-- of an argument of another type, or more bytes than an `int` counts.
unfoldable pub vsnprintf :
    (str : ℕ → ℕ) (size : ℕ) (fmt : List ℕ) (args : List Arg) (flags : ℕ) → Option (ℕ × (ℕ → ℕ))
vsnprintf str size fmt args flags = into_buffer size str (
    print_loop (suc (length fmt)) fmt
      (record { flags = flags; args = args; out = []; printed = 0 }))

unfoldable pub snprintf :
    (str : ℕ → ℕ) (size : ℕ) (fmt : List ℕ) (args : List Arg) (flags : ℕ) → Option (ℕ × (ℕ → ℕ))
unfolding vsnprintf
snprintf str size fmt args flags = vsnprintf str size fmt args flags

-- `INT32_MAX` is the size.
unfoldable pub vsprintf :
    (str : ℕ → ℕ) (fmt : List ℕ) (args : List Arg) (flags : ℕ) → Option (ℕ × (ℕ → ℕ))
unfolding vsnprintf
vsprintf str fmt args flags = vsnprintf str 0x7fff_ffff fmt args flags

unfoldable pub sprintf :
    (str : ℕ → ℕ) (fmt : List ℕ) (args : List Arg) (flags : ℕ) → Option (ℕ × (ℕ → ℕ))
unfolding vsprintf
sprintf str fmt args flags = vsprintf str fmt args flags

-- A buffer with the beginning of a text that fits, a NUL behind it, and the rest as it was.
pub record HoldsText (text : List ℕ) (size : ℕ) (str buffer : ℕ → ℕ) : Type 0 where
  pub ends : buffer (min (length text) (size - 1)) ≡ 0
  pub bytes : (i c : ℕ) → get_elem? text i ≡ some c → i < size - 1 → buffer i ≡ c
  pub behind : (j : ℕ) → min (length text) (size - 1) < j → buffer j ≡ str j

prints_nul :
    (text : List ℕ) (str : ℕ → ℕ) (size : ℕ) (args : List Arg) (flags : ℕ)
    → length text < 0x8000_0000
    → into_buffer size str (
        print_loop 2
          (0 ∷ [])
          (record { flags = flags; args = args; out = text; printed = 0 + length text }))
      ≡ some (length text, fill_buffer size text str)
unfolding print_loop
prints_nul text str size args flags small =
    let all : 0 + length text ≡ length text = omega arith in
    rw (all, lt→ltb (length text) 0x8000_0000 small) refl

-- `snprintf` with a plain text of fewer than 2 ^ 31 bytes as its format, and a size of 1 or more,
-- returns the length of the text, whatever the arguments and the uninitialised flags are, and leaves
-- the text in the buffer, as far as it fits.
pub snprintf-plain :
    (str : ℕ → ℕ) (size : ℕ) (text : List ℕ) (args : List Arg) (flags : ℕ)
    → IsPlain text
    → length text < 2 ^ 31
    → 1 ≤ size
    → size ≤ 2 ^ 64
    → (buffer : ℕ → ℕ) × (snprintf str size (text ++ 0 ∷ []) args flags
        ≡ some (length text, buffer))
      × HoldsText text size str buffer
unfolding snprintf vsnprintf
snprintf-plain str size text args flags plain short h fits =
    let p : Printer = record { flags = flags; args = args; out = []; printed = 0 } in
    let rounds : suc (length (text ++ 0 ∷ [])) ≡ length text + 2 =
      omega (arith, length-append {0} text (0 ∷ [])) in
    let prints = print_loop-plain text (0 ∷ []) 2 p plain in
    let held = fill_buffer_lem size text str h fits in
    (
      fill_buffer size text str,
      rw (rounds, prints) (prints_nul text str size args flags short),
      record { ends = held.0; bytes = held.1; behind = held.2 },
    )
