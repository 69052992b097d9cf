-- ===== src/Printf/Total.antt =====
-- printf.c: the outer loop ends. Each round moves `fmt` on, so that one round of fuel more than the
-- bytes of the format is enough.
use rix_draft.Base.{
  ℕ, zero, suc, ◌≤◌, ◌<◌, ◌≡◌, ◌≢◌, Bool, true, false, ◌||◌, Option, none, some, List, [], ◌∷◌,
  bit_or, ◌==◌, if◌then◌else◌, arith, length, Bool-cases, Option-cases, inl, inr, ltb,
}
use mathlib.Core.Path.{subst}
use rix_draft.Printf.Reader.{
  NumberType, Arg, Directive, flag_of, is_digit, read, read_flags, read_number, read_width,
  read_precision, read_length, directive, int_arg, ◌>>=◌,
}
use rix_draft.Printf.Convert.{Printer, convert}
use rix_draft.Printf.{out_of_fuel, print_loop}

-- What a reader returns, if it returns, is no longer than `n`.
abbrev Within {ℓ} : {A : Type ℓ} → (A → ℕ) → ℕ → Option A → Type 0
Within size n none = Unit {0}
Within size n (some a) = size a ≤ n

Within-bind {ℓ κ} :
    {A : Type ℓ} {B : Type κ} (size : A → ℕ) (size' : B → ℕ) (n n' : ℕ) (o : Option A)
    (k : A → Option B)
    → Within size n o
    → ((a : A) → size a ≤ n → Within size' n' (k a))
    → Within size' n' (o >>= k)
Within-bind size size' n n' none k w f = tt
Within-bind size size' n n' (some a) k w f = f a w

Within-if {ℓ} :
    {A : Type ℓ} (size : A → ℕ) (n : ℕ) (b : Bool) (o o' : Option A)
    → Within size n o
    → Within size n o'
    → Within size n (if b then o else o')
Within-if size n true o o' w w' = w
Within-if size n false o o' w w' = w'

read_flags-Within :
    (fmt : List ℕ) (flags n : ℕ)
    → length fmt ≤ n
    → Within (λ t. length t.2) n (read_flags fmt flags)
unfolding read_flags
read_flags-Within [] flags n h = tt
read_flags-Within (c ∷ fmt) flags n h =
    Within-if _ n (flag_of c == 0) (some (c, flags, c ∷ fmt)) _ h
      (read_flags-Within fmt (bit_or flags (flag_of c)) n (omega arith))

read-Within : (fmt : List ℕ) (n : ℕ) → length fmt ≤ n → Within (λ t. length t.1) n (read fmt)
read-Within [] n h = tt
read-Within (c ∷ fmt) n h = omega arith

read_number-Within :
    (fmt : List ℕ) (c acc n : ℕ)
    → length fmt ≤ n
    → Within (λ t. length t.2) n (read_number fmt c acc)
unfolding read_number
read_number-Within [] c acc n h = Within-if _ n (is_digit c) _ _ tt h
read_number-Within (c' ∷ fmt) c acc n h =
    Within-if _ n (is_digit c) _ _ (read_number-Within fmt c' _ n (omega arith)) h

int_arg-Within : (args : List Arg) (n : ℕ) → Within (λ _. 0) n (int_arg args)
int_arg-Within [] n = tt
int_arg-Within (Arg.num k ∷ args) n = omega arith
int_arg-Within (Arg.str s ∷ args) n = tt

-- A step that reads one more byte.
then_read :
    {A : Type 0} (size : A → ℕ) (fmt : List ℕ) (n : ℕ) (k : ℕ × List ℕ → Option A)
    → length fmt ≤ n
    → ((t : ℕ × List ℕ) → length t.1 ≤ n → Within size n (k t))
    → Within size n (read fmt >>= k)
then_read size fmt n k h = Within-bind (λ t. length t.1) size n n (read fmt) k (read-Within fmt n h)

read_star :
    {A : Type 0} (size : A → ℕ) (fmt : List ℕ) (args : List Arg) (n : ℕ)
    (k : ℕ → List Arg → ℕ × List ℕ → Option A)
    → length fmt ≤ n
    → ((w : ℕ) (args1 : List Arg) (t : ℕ × List ℕ) → length t.1 ≤ n → Within size n (k w args1 t))
    → Within size n (int_arg args >>= λ (w, args1). read fmt >>= k w args1)
read_star size fmt args n k h f =
    Within-bind (λ _. 0) size n n (int_arg args) (λ (w, args1). read fmt >>= k w args1)
      (int_arg-Within args n) (λ (w, args1) le. then_read size fmt n (k w args1) h (f w args1))

abbrev fmt_size : ℕ × ℕ × List ℕ × List Arg → ℕ
fmt_size t = length t.2

read_width-Within :
    (c : ℕ) (fmt : List ℕ) (args : List Arg) (n : ℕ)
    → length fmt ≤ n
    → Within fmt_size n (read_width c fmt args)
unfolding read_width
read_width-Within c fmt args n h =
    Within-if fmt_size n (is_digit c) _ _
      (Within-bind (λ t. length t.2) fmt_size n n (read_number fmt c 0) _
        (read_number-Within fmt c 0 n h) (λ t w. w))
      (Within-if fmt_size n (c == b'*') _ (some (0, c, fmt, args))
        (read_star fmt_size fmt args n (λ w args1 t. some (w, t.0, t.1, args1)) h
          (λ w args1 t le. le))
        h)

read_precision-Within :
    (c : ℕ) (fmt : List ℕ) (args : List Arg) (n : ℕ)
    → length fmt ≤ n
    → Within fmt_size n (read_precision c fmt args)
unfolding read_precision
read_precision-Within c fmt args n h =
    Within-if fmt_size n (c == b'.') _ (some (0xffff_ffff, c, fmt, args))
      (then_read fmt_size fmt n _ h λ (c', fmt') le.
        Within-if fmt_size n (is_digit c') _ _
          (Within-bind (λ t. length t.2) fmt_size n n (read_number fmt' c' 0) _
            (read_number-Within fmt' c' 0 n le) (λ t w. w))
          (Within-if fmt_size n (c' == b'*') _ (some (0xffff_ffff, c', fmt', args))
            (read_star fmt_size fmt' args n (λ w args1 t. some (w, t.0, t.1, args1)) le
              (λ w args1 t w'. w'))
            le))
      h

abbrev typed_size : NumberType × ℕ × List ℕ → ℕ
typed_size t = length t.2

read_length-Within :
    (c : ℕ) (fmt : List ℕ) (n : ℕ) → length fmt ≤ n → Within typed_size n (read_length c fmt)
unfolding read_length
read_length-Within c fmt n h =
    Within-if typed_size n (c == b'l') _ _
      (then_read typed_size fmt n _ h λ (c', fmt') le.
        Within-if typed_size n (c' == b'l') _ (some (NumberType.long, c', fmt'))
          (then_read typed_size fmt' n _ le λ t le'. le') le)
      (Within-if typed_size n (c == b'h') _ _
        (then_read typed_size fmt n _ h λ (c', fmt') le.
          Within-if typed_size n (c' == b'h') _ (some (NumberType.short, c', fmt'))
            (then_read typed_size fmt' n _ le λ t le'. le') le)
        (Within-if typed_size n ((c == b'q') || (c == b'L')) _ (some (NumberType.plain, c, fmt))
          (then_read typed_size fmt n _ h λ t le. le) h))

abbrev rest_size : Directive → ℕ
rest_size d = length d.rest

directive-Within :
    (fmt : List ℕ) (flags : ℕ) (args : List Arg)
    → Within rest_size (length fmt) (directive fmt flags args)
unfolding directive
directive-Within fmt flags args =
    let n = length fmt in
    Within-bind (λ t. length t.2) rest_size n n (read_flags fmt flags) _
      (read_flags-Within fmt flags n (omega arith))
      λ (c, flags', fmt1) le1.
        Within-bind (λ t. length t.2) rest_size n n _ _
          (Within-if (λ t. length t.2) n (c == b'0') _ (some (b' ', c, fmt1))
            (then_read (λ t. length t.2) fmt1 n _ le1 λ t le. le) le1)
          λ (padc, c1, fmt2) le2.
            Within-bind fmt_size rest_size n n (read_width c1 fmt2 args) _
              (read_width-Within c1 fmt2 args n le2)
              λ (width, c2, fmt3, args1) le3.
                Within-bind fmt_size rest_size n n (read_precision c2 fmt3 args1) _
                  (read_precision-Within c2 fmt3 args1 n le3)
                  λ (precision, c3, fmt4, args2) le4.
                    Within-bind typed_size rest_size n n (read_length c3 fmt4) _
                      (read_length-Within c3 fmt4 n le4) λ t le5. le5

directive-shrinks :
    (fmt : List ℕ) (flags : ℕ) (args : List Arg) (d : Directive)
    → directive fmt flags args ≡ some d
    → length d.rest ≤ length fmt
directive-shrinks fmt flags args d e =
    subst (Within rest_size (length fmt)) e (directive-Within fmt flags args)

-- The fuel never runs out: the printer comes to the NUL or to a fault within as many rounds as the
-- format has bytes, its NUL included.
pub print_loop-total :
    (fuel : ℕ) (fmt : List ℕ) (p : Printer)
    → length fmt < fuel
    → print_loop fuel fmt p ≢ out_of_fuel
unfolding print_loop
print_loop-total zero fmt p h = absurd (omega arith)
print_loop-total (suc fuel) [] p h = λ e. cc
print_loop-total (suc fuel) (c ∷ fmt) p h = elim (Bool-cases (c == 0)) [
  | inl nul ↦ elim (Bool-cases (ltb p.printed 0x8000_0000)) [
    | inl small ↦ rw (nul, small, print_loop) (λ e. cc)
    | inr large ↦ rw (nul, large, print_loop) (λ e. cc)
  ]
  | inr more ↦ elim (Bool-cases (c == b'%')) [
    | inr text ↦ rw (more, text, print_loop) (print_loop-total fuel fmt _ (omega arith))
    | inl percent ↦ elim (Option-cases (directive fmt p.flags p.args)) [
      | inl bad ↦ rw (more, percent, bad, print_loop) (λ e. cc)
      | inr (d, good) ↦ elim (Option-cases (convert d p)) [
        | inl bad ↦ rw (more, percent, good, bad, print_loop) (λ e. cc)
        | inr (p', put) ↦
            rw (more, percent, good, put, print_loop)
              (print_loop-total fuel d.rest p'
                (omega (arith, directive-shrinks fmt p.flags p.args d good)))
      ]
    ]
  ]
]
