-- ===== src/Printf/Text.antt =====
-- printf.c: what the printer puts for plain text, and for the conversions of numbers.
use mathlib.Core.List.{append-nil, append_assoc}
use rix_draft.Base.{
  sym, ℕ, suc, ◌+◌, ◌≡◌, refl, ◌≢◌, false, List, [], ◌∷◌, ◌++◌, bit_or, ◌==◌, arith, length, ==_ne,
}
use rix_draft.Printf.Reader.{Arg, num, directive, sign}
use rix_draft.Printf.Convert.{Printer, convert}
use rix_draft.Printf.{print_loop}

-- Bytes that are neither the NUL nor a percent sign.
abbrev pub IsPlain : List ℕ → Type 0
IsPlain [] = Unit {0}
IsPlain (c ∷ text) = (c ≢ 0) × (c ≢ b'%') × IsPlain text

-- Plain text is put byte by byte and counted, and the rest of the format is printed after it.
pub print_loop-plain :
    (text rest : List ℕ) (fuel : ℕ) (p : Printer)
    → IsPlain text
    → print_loop (length text + fuel) (text ++ rest) p
      ≡ print_loop fuel rest (record p { out = p.out ++ text; printed = p.printed + length text })
unfolding print_loop
print_loop-plain [] rest fuel p plain =
    let none_printed : p.printed + 0 ≡ p.printed = omega arith in
    let all_left : 0 + fuel ≡ fuel = omega arith in
    rw (append-nil p.out, none_printed, all_left) refl
print_loop-plain (c ∷ text) rest fuel p plain =
    let more : (c == 0) ≡ false = ==_ne c 0 plain.0 in
    let byte : (c == b'%') ≡ false = ==_ne c b'%' plain.1 in
    let p' : Printer = record p { out = p.out ++ c ∷ []; printed = p.printed + 1 } in
    let count : p.printed + suc (length text) ≡ (p.printed + 1) + length text = omega arith in
    let round : suc (length text) + fuel ≡ suc (length text + fuel) = omega arith in
    rw (round, print_loop, more, byte, count, sym (append_assoc p.out (c ∷ []) text))
      (print_loop-plain text rest fuel p' plain.2)

-- A conversion `%d` uses up two arguments, prints the letter `d` twice and neither number, whatever
-- the numbers are, and leaves the flag SIGN set.
pub print_loop-signed :
    (a b fuel : ℕ) (rest : List ℕ) (args : List Arg) (p : Printer)
    → p.args ≡ num a ∷ num b ∷ args
    → print_loop (suc (suc fuel)) (b'%' ∷ b'd' ∷ rest) p
      ≡ print_loop fuel rest (record {
        flags = bit_or p.flags sign;
        args = args;
        out = (p.out ++ b'd' ∷ []) ++ b'd' ∷ [];
        printed = p.printed + 1;
      })
unfolding print_loop directive convert
print_loop-signed a b fuel rest args p e = rw e refl
