-- ===== src/Printf/Reader.antt =====
-- printf.c: what `__printf_internal` reads behind a `%`: flags, width, precision and length. `c` is
-- the variable of the code. Until the code reads by `c = *fmt++`, `fmt` still stands at `c`.
use rix_draft.Base.{
  ℕ, ◌+◌, ◌-◌, ◌*◌, Bool, ◌&&◌, ◌||◌, Option, none, some, List, [], ◌∷◌, bit_or, u32, leb, ◌==◌,
  if◌then◌else◌,
}

-- The arguments: a number for every integer type, a string or `NULL` for `char *`.
pub data Arg : Type 0 where
  num : ℕ → Arg
  str : Option (List ℕ) → Arg

-- `enum number_type`
pub data NumberType : Type 0 where
  plain long_long long char short int size_t : NumberType

pub record Directive : Type 0 where
  pub c : ℕ
  pub flags : ℕ
  pub padc : ℕ
  pub width : ℕ
  pub precision : ℕ
  pub ntype : NumberType
  pub rest : List ℕ
  pub args : List Arg

abbrev pub caps : ℕ
caps = 0x1

abbrev pub left : ℕ
left = 0x2

abbrev pub sign : ℕ
sign = 0x4

abbrev pub space : ℕ
space = 0x8

abbrev pub alt : ℕ
alt = 0x10

abbrev pub plus : ℕ
plus = 0x20

abbrev pub is_digit : ℕ → Bool
is_digit c = leb b'0' c && leb c b'9'

-- The flag of a character, 0 for any other.
abbrev pub flag_of : ℕ → ℕ
flag_of c =
    if c == b'-'
    then left
    else if c == b'+'
    then plus
    else if c == b' '
    then space
    else if c == b'#'
    then alt
    else 0

-- `while (1)` over the flags: `c`, the flags, and `fmt`, which still begins with `c`.
unfoldable pub read_flags : List ℕ → ℕ → Option (ℕ × ℕ × List ℕ)
read_flags [] flags = none
read_flags (c ∷ fmt) flags =
    let more = read_flags fmt (bit_or flags (flag_of c)) in
    if flag_of c == 0 then some (c, flags, c ∷ fmt) else more

-- `c = *fmt++`
abbrev pub read : List ℕ → Option (ℕ × List ℕ)
read [] = none
read (c ∷ fmt) = some (c, fmt)

-- `while (isdigit(c)) { n = 10 * n + chtod(c); c = *fmt++; }`: the number, `c` and `fmt`.
unfoldable pub read_number : List ℕ → ℕ → ℕ → Option (ℕ × ℕ × List ℕ)
read_number [] c n = if is_digit c then none else some (n, c, [])
read_number (c' ∷ fmt) c n =
    let more = read_number fmt c' (u32 (10 * n + (c - b'0'))) in
    if is_digit c then more else some (n, c, c' ∷ fmt)

-- `va_arg(argp, int)` into a `uint32_t`
abbrev pub int_arg : List Arg → Option (ℕ × List Arg)
int_arg (num n ∷ args) = some (u32 n, args)
int_arg _ = none

infixl 5 ◌>>=◌
abbrev pub ◌>>=◌ {ℓ κ} : {A : Type ℓ} {B : Type κ} → Option A → (A → Option B) → Option B
none >>= k = none
some a >>= k = k a

-- The field width: the number, `c`, `fmt` and the arguments. The width is unsigned, so that the
-- test for a negative one never holds.
unfoldable pub read_width : ℕ → List ℕ → List Arg → Option (ℕ × ℕ × List ℕ × List Arg)
read_width c fmt args =
    if is_digit c
    then (do (n, c', fmt') ← read_number fmt c 0; some (n, c', fmt', args))
    else if c == b'*'
    then (do (n, args') ← int_arg args; (c', fmt') ← read fmt; some (n, c', fmt', args'))
    else some (0, c, fmt, args)

-- The precision, with -1 as a `uint32_t` where there is none.
unfoldable pub read_precision : ℕ → List ℕ → List Arg → Option (ℕ × ℕ × List ℕ × List Arg)
read_precision c fmt args =
    if c == b'.'
    then (do
      (c', fmt') ← read fmt
      if is_digit c'
          then (do (n, c'', fmt'') ← read_number fmt' c' 0; some (n, c'', fmt'', args))
          else if c' == b'*'
          then (do (n, args') ← int_arg args; (c'', fmt'') ← read fmt'; some (n, c'', fmt'', args'))
          else some (0xffff_ffff, c', fmt', args))
    else some (0xffff_ffff, c, fmt, args)

unfoldable pub read_length : ℕ → List ℕ → Option (NumberType × ℕ × List ℕ)
read_length c fmt =
    if c == b'l'
    then (do
      (c', fmt') ← read fmt
      if c' == b'l'
          then (do (c'', fmt'') ← read fmt'; some (NumberType.long_long, c'', fmt''))
          else some (NumberType.long, c', fmt'))
    else if c == b'h'
    then (do
      (c', fmt') ← read fmt
      if c' == b'h'
          then (do (c'', fmt'') ← read fmt'; some (NumberType.char, c'', fmt''))
          else some (NumberType.short, c', fmt'))
    else if (c == b'q') || (c == b'L')
    then (do (c', fmt') ← read fmt; some (NumberType.long, c', fmt'))
    else some (NumberType.plain, c, fmt)

-- From behind the `%` up to the `switch`.
unfoldable pub directive : List ℕ → ℕ → List Arg → Option Directive
unfolding read_flags read_number read_width read_precision read_length
directive fmt flags args = do
  (c, flags', fmt1) ← read_flags fmt flags
  (padc, c1, fmt2) ←
      (if c == b'0'
        then (do (c', fmt') ← read fmt1; some (b'0', c', fmt'))
        else some (b' ', c, fmt1))
  (width, c2, fmt3, args1) ← read_width c1 fmt2 args
  (precision, c3, fmt4, args2) ← read_precision c2 fmt3 args1
  (ntype, c4, fmt5) ← read_length c3 fmt4
  some (record {
    c = c4;
    flags = flags';
    padc = padc;
    width = width;
    precision = precision;
    ntype = if (c4 == b'z') || (c4 == b'Z') then NumberType.size_t else ntype;
    rest = fmt5;
    args = args2;
  })
