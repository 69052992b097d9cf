-- ===== src/Printf/Buffer.antt =====
-- printf.c: `vsnprintf` and its callback `vsnprintf_internal`, over the bytes that the printer puts.
-- A buffer is a memory of bytes by index.
use rix_draft.Base.{
  ℕ, zero, suc, ◌+◌, ◌-◌, ◌^◌, ◌<◌, ◌≤◌, ◌≡◌, refl, lt→ltb, Bool-cases, inl, inr, ◌⊎◌, true, some,
  List, [], ◌∷◌, sub64, ltb, ◌==◌, if◌then◌else◌, arith, length, get_elem?, min,
}

-- `snprintf_arg_t`
pub record SnprintfArg : Type 0 where
  pub data_at : ℕ → ℕ
  pub size : ℕ
  pub pos : ℕ

abbrev pub write : (ℕ → ℕ) → ℕ → ℕ → ℕ → ℕ
write f i c j = if j == i then c else f j

unfoldable pub vsnprintf_internal : ℕ → SnprintfArg → SnprintfArg
vsnprintf_internal c args =
    if ltb args.pos (sub64 args.size 1)
    then record args { data_at = write args.data_at args.pos c; pos = args.pos + 1 }
    else args

unfoldable pub put_all : List ℕ → SnprintfArg → SnprintfArg
unfolding vsnprintf_internal
put_all [] args = args
put_all (c ∷ cs) args = put_all cs (vsnprintf_internal c args)

-- The buffer behind `vsnprintf(str, size, ...)`, for the bytes that are put.
unfoldable pub fill_buffer : (size : ℕ) → List ℕ → (ℕ → ℕ) → ℕ → ℕ
unfolding put_all
fill_buffer size cs str =
    let info = put_all cs (record { data_at = str; size = size; pos = 0 }) in
    if ltb info.pos info.size then write info.data_at info.pos 0 else info.data_at

-- The bytes from `pos` on are those of `cs`, as far as there is room; the others are as before.
pub record IsPut (cs : List ℕ) (args args' : SnprintfArg) : Type 0 where
  pub size : args'.size ≡ args.size
  pub pos : args'.pos ≡ min (args.pos + length cs) (args.size - 1)
  pub inside :
      (i : ℕ) (c : ℕ)
      → get_elem? cs i ≡ some c
      → args.pos + i < args.size - 1
      → args'.data_at (args.pos + i) ≡ c
  pub outside : (j : ℕ) → (j < args.pos) ⊎ (args'.pos ≤ j) → args'.data_at j ≡ args.data_at j

inside_cons :
    (c : ℕ) (cs : List ℕ) (args args' : SnprintfArg)
    → IsPut cs (record args { data_at = write args.data_at args.pos c; pos = args.pos + 1 }) args'
    → (i b : ℕ) → get_elem? (c ∷ cs) i ≡ some b
    → args.pos + i < args.size - 1
    → args'.data_at (args.pos + i) ≡ b
inside_cons c cs args args' rest zero b e r =
    let here : args.pos + 0 ≡ args.pos = omega arith in
    rw here (ground (arith, rest.outside args.pos))
inside_cons c cs args args' rest (suc i) b e r =
    let there : args.pos + suc i ≡ args.pos + 1 + i = omega arith in
    rw there (rest.inside i b e (omega arith))

put_all-IsPut :
    (cs : List ℕ) (args : SnprintfArg)
    → args.pos < args.size
    → args.size ≤ 2 ^ 64
    → IsPut cs args (put_all cs args)
unfolding put_all
put_all-IsPut [] args h fits = record {
  size = refl;
  pos = omega arith;
  inside = λ i c e. cc;
  outside = λ j o. refl;
}
put_all-IsPut (c ∷ cs) args h fits = elim (Bool-cases (ltb args.pos (sub64 args.size 1))) [
  | inl room ↦
      let args1 : SnprintfArg = record args {
        data_at = write args.data_at args.pos c;
        pos = args.pos + 1;
      } in
      let rest = put_all-IsPut cs args1 (ground arith) fits in
      rw room (record {
        size = rest.size;
        pos = ground (arith, rest.pos);
        inside = inside_cons c cs args (put_all cs args1) rest;
        outside = λ j o. ground (arith, rest.outside j, rest.pos);
      })
  | inr full ↦
      let rest = put_all-IsPut cs args h fits in
      rw full (record {
        size = rest.size;
        pos = ground (arith, rest.pos);
        inside = λ i b e r. absurd (ground arith);
        outside = rest.outside;
      })
]

get_elem?-lt : (cs : List ℕ) (i c : ℕ) → get_elem? cs i ≡ some c → i < length cs
get_elem?-lt [] i c e = absurd (cc)
get_elem?-lt (x ∷ cs) zero c e = omega arith
get_elem?-lt (x ∷ cs) (suc i) c e = omega (arith, get_elem?-lt cs i c e)

-- For a buffer of no bytes, the bound `size - 1` wraps: every byte is written, from the start of the
-- buffer on.
pub vsnprintf_internal-empty :
    (c : ℕ) (args : SnprintfArg)
    → args.size ≡ 0
    → args.pos < 2 ^ 64 - 1
    → vsnprintf_internal c args
      ≡ record args { data_at = write args.data_at args.pos c; pos = args.pos + 1 }
unfolding vsnprintf_internal
vsnprintf_internal-empty c args e h =
    let room : ltb args.pos (sub64 args.size 1) ≡ true = rw e (lt→ltb _ _ h) in rw room refl

-- `vsnprintf` into a buffer of at least one byte writes nothing behind it, stores the bytes that
-- are put as far as they fit with a NUL behind them, and leaves the rest of the buffer alone.
pub fill_buffer_lem :
    (size : ℕ) (cs : List ℕ) (str : ℕ → ℕ)
    → 1 ≤ size
    → size ≤ 2 ^ 64
    → (fill_buffer size cs str (min (length cs) (size - 1)) ≡ 0)
      × ((i c : ℕ) → get_elem? cs i ≡ some c → i < size - 1 → fill_buffer size cs str i ≡ c)
      × ((j : ℕ) → min (length cs) (size - 1) < j → fill_buffer size cs str j ≡ str j)
unfolding fill_buffer
fill_buffer_lem size cs str h fits =
    let info : SnprintfArg = record { data_at = str; size = size; pos = 0 } in
    let put = put_all-IsPut cs info h fits in
    let inner : ltb (put_all cs info).pos (put_all cs info).size ≡ true =
      ground (arith, put.pos, put.size) in
    rw inner (
      ground (arith, put.pos),
      λ i c e r.
          let below = get_elem?-lt cs i c e in
          let from_zero : 0 + i ≡ i = omega arith in
          let stored : (put_all cs info).data_at i ≡ c =
            rw from_zero at (put.inside i c e (omega arith)) in
          ground (arith, put.pos, stored),
      λ j r. ground (arith, put.pos, put.outside j),
    )
