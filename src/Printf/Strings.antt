-- ===== src/Printf/Strings.antt =====
-- printf.c: what the conversion of a string puts, by its width and its precision.
use rix_draft.Base.{
  ℕ, zero, suc, ◌+◌, ◌-◌, ◌<◌, ◌≡◌, refl, Bool, true, false, not, Option, none, some, List, [], ◌∷◌,
  ◌++◌, bit_and, ◌==◌, if◌then◌else◌, arith, length, length-append, min, lt→ltb,
}
use rix_draft.Printf.Reader.{Directive, left}
use rix_draft.Printf.Convert.{Printer, spaces, bounded, null_text, put_string}

length-spaces : (n : ℕ) → length (spaces n) ≡ n
length-spaces zero = refl
length-spaces (suc n) = omega (arith, length-spaces n)

length-bounded : (room : ℕ) (s : List ℕ) → length (bounded room s) ≡ min room (length s)
length-bounded zero s = omega arith
length-bounded (suc room) [] = omega arith
length-bounded (suc room) (c ∷ s) = omega (arith, length-bounded room s)

-- The bytes before, of and behind a string, for a width.
abbrev pads : Bool → ℕ → ℕ → List ℕ → List ℕ × List ℕ × List ℕ
pads ladjust width precision text =
    let body = bounded (min precision width) text in
    (
      if not ladjust then spaces (width - min precision (length text)) else [],
      body,
      if ladjust then spaces (width - length body) else [],
    )

pads_width :
    (ladjust : Bool) (width precision : ℕ) (text : List ℕ)
    → let parts = pads ladjust width precision text in
      length parts.0 + length parts.1 + length parts.2 ≡ width
pads_width true width precision text = omega (
  arith,
  length-bounded (min precision width) text,
  length-spaces (width - length (bounded (min precision width) text)),
)
pads_width false width precision text = omega (
  arith,
  length-bounded (min precision width) text,
  length-spaces (width - min precision (length text)),
)

-- With a width, the conversion `%s` puts exactly as many bytes as the width, whatever the precision
-- and the adjustment are: a shorter string is padded, and a longer one is cut to the width.
pub put_string-width :
    (d : Directive) (s : Option (List ℕ)) (p : Printer)
    → 0 < d.width
    → (length (put_string d s p).out ≡ length p.out + d.width)
      × ((put_string d s p).printed ≡ p.printed + d.width)
unfolding put_string
put_string-width d s p wide =
    let text : List ℕ = elim s [ none ↦ null_text | some bytes ↦ bytes ] in
    let precision = if d.precision == 0xffff_ffff then 0x7fff_ffff else d.precision in
    let ladjust = not (bit_and d.flags left == 0) in
    let parts = pads ladjust d.width precision text in
    let sum = pads_width ladjust d.width precision text in
    rw (lt→ltb 0 d.width wide) (
      omega (
        arith,
        sum,
        length-append {0} p.out (parts.0 ++ parts.1 ++ parts.2),
        length-append {0} parts.0 (parts.1 ++ parts.2),
        length-append {0} (parts.0 ++ parts.1) parts.2,
        length-append {0} parts.0 parts.1,
        length-append {0} parts.1 parts.2,
        length-append {0} (p.out ++ parts.0) parts.1,
        length-append {0} p.out parts.0,
        length-append {0} (p.out ++ parts.0 ++ parts.1) parts.2,
      ),
      omega (arith, sum),
    )
