-- ===== src/QSort/Bytes.antt =====
-- qsort.c: the exchanges on the memory, word by word or byte by byte. Addresses do not wrap here: an
-- object lies below 2 ^ 64.
use rix_draft.Base.{
  ℕ, zero, suc, ◌+◌, ◌-◌, ◌*◌, ◌/◌, ◌%◌, ◌≤◌, ◌<◌, ◌≡◌, refl, ◌⊎◌, inl, inr, bit_or, ltb, leb, ◌&&◌,
  ◌==◌, if◌then◌else◌, Option, none, some, true, Bool-cases, arith, ◌∙◌,
}

-- `SWAPINIT`
unfoldable pub swap_type : (address es : ℕ) → ℕ
swap_type address es = if bit_or address es % 8 == 0 then (if ltb 8 es then 1 else 0) else 2

-- `exch` of two bytes.
abbrev pub exch : ℕ → ℕ → (ℕ → ℕ) → ℕ → ℕ
exch a b m p = if p == a then m b else if p == b then m a else m p

-- `exch` of two words of eight bytes: the second word is written last.
abbrev pub exch_word : ℕ → ℕ → (ℕ → ℕ) → ℕ → ℕ
exch_word a b m p =
    if leb b p && ltb p (b + 8)
    then m (a + (p - b))
    else if leb a p && ltb p (a + 8)
    then m (b + (p - a))
    else m p

-- The two loops of `swapfunc`, for `n` words and for `n` bytes.
unfoldable pub swap_words : ℕ → ℕ → ℕ → (ℕ → ℕ) → ℕ → ℕ
swap_words zero a b m = m
swap_words (suc n) a b m = swap_words n (a + 8) (b + 8) (exch_word a b m)

unfoldable pub swap_bytes : ℕ → ℕ → ℕ → (ℕ → ℕ) → ℕ → ℕ
swap_bytes zero a b m = m
swap_bytes (suc n) a b m = swap_bytes n (a + 1) (b + 1) (exch a b m)

-- `none` where `n` is no number of words: `n` wraps there, and the loop runs on.
unfoldable pub swapfunc : (a b n swaptype : ℕ) → (ℕ → ℕ) → Option (ℕ → ℕ)
unfolding swap_words swap_bytes
swapfunc a b n swaptype m =
    if leb swaptype 1
    then (if n % 8 == 0 then some (swap_words (n / 8) a b m) else none)
    else some (swap_bytes n a b m)

-- Two blocks are the same or lie apart.
abbrev pub SameOrApart : ℕ → ℕ → ℕ → Type 0
SameOrApart a b n = (a ≡ b) ⊎ ((a + n ≤ b) ⊎ (b + n ≤ a))

-- The memory behind the exchange of two blocks of `n` bytes.
pub record Exchanged (a b n : ℕ) (m m' : ℕ → ℕ) : Type 0 where
  pub at_first : (k : ℕ) → k < n → m' (a + k) ≡ m (b + k)
  pub at_second : (k : ℕ) → k < n → m' (b + k) ≡ m (a + k)
  pub elsewhere : (p : ℕ) → (p < a) ⊎ (a + n ≤ p) → (p < b) ⊎ (b + n ≤ p) → m' p ≡ m p

Exchanged-none : (a b : ℕ) (m : ℕ → ℕ) → Exchanged a b 0 m m
Exchanged-none a b m = record {
  at_first = λ k h. absurd (omega arith);
  at_second = λ k h. absurd (omega arith);
  elsewhere = λ p ha hb. refl;
}

-- The blocks are exchanged when their beginnings are, and then what is left of them.
Exchanged-step :
    (w n a b : ℕ) (m m1 m2 : ℕ → ℕ)
    → SameOrApart a b (w + n)
    → Exchanged a b w m m1
    → Exchanged (a + w) (b + w) n m1 m2
    → Exchanged a b (w + n) m m2
Exchanged-step w n a b m m1 m2 h x y = record {
  at_first = λ k l. elim (Bool-cases (ltb k w)) [
    | inl early ↦ ground (arith, y.elsewhere (a + k), x.at_first k)
    | inr late ↦
        let at_a : a + w + (k - w) ≡ a + k = ground (arith, late) in
        let at_b : b + w + (k - w) ≡ b + k = ground (arith, late) in
        let there = rw (at_a, at_b) at (y.at_first (k - w) (ground (arith, late))) in
        there ∙ x.elsewhere (b + k) (ground (arith, late)) (ground (arith, late))
  ];
  at_second = λ k l. elim (Bool-cases (ltb k w)) [
    | inl early ↦ ground (arith, y.elsewhere (b + k), x.at_second k)
    | inr late ↦
        let at_a : a + w + (k - w) ≡ a + k = ground (arith, late) in
        let at_b : b + w + (k - w) ≡ b + k = ground (arith, late) in
        let there = rw (at_a, at_b) at (y.at_second (k - w) (ground (arith, late))) in
        there ∙ x.elsewhere (a + k) (ground (arith, late)) (ground (arith, late))
  ];
  elsewhere = λ p ha hb. ground (arith, y.elsewhere p, x.elsewhere p);
}

exch-Exchanged : (a b : ℕ) (m : ℕ → ℕ) → Exchanged a b 1 m (exch a b m)
exch-Exchanged a b m = record {
  at_first = λ k h. ground arith;
  at_second = λ k h. ground arith;
  elsewhere = λ p ha hb. ground arith;
}

exch_word-Exchanged :
    (a b : ℕ) (m : ℕ → ℕ) → SameOrApart a b 8 → Exchanged a b 8 m (exch_word a b m)
exch_word-Exchanged a b m apart = record {
  at_first = λ k h. ground arith;
  at_second = λ k h. ground arith;
  elsewhere = λ p ha hb. ground arith;
}

swap_bytes-Exchanged :
    (n a b : ℕ) (m : ℕ → ℕ) → SameOrApart a b n → Exchanged a b n m (swap_bytes n a b m)
unfolding swap_bytes
swap_bytes-Exchanged zero a b m h = Exchanged-none a b m
swap_bytes-Exchanged (suc n) a b m h =
    let sum : suc n ≡ 1 + n = omega arith in
    rw sum (
      Exchanged-step 1 n a b m (exch a b m) _ (rw sum at h) (exch-Exchanged a b m)
        (swap_bytes-Exchanged n (a + 1) (b + 1) (exch a b m) (ground arith)))

swap_words-Exchanged :
    (n a b : ℕ) (m : ℕ → ℕ) → SameOrApart a b (n * 8) → Exchanged a b (n * 8) m (swap_words n a b m)
unfolding swap_words
swap_words-Exchanged zero a b m h = Exchanged-none a b m
swap_words-Exchanged (suc n) a b m h =
    let sum : suc n * 8 ≡ 8 + n * 8 = omega arith in
    rw sum (
      Exchanged-step 8 (n * 8) a b m (exch_word a b m) _ (rw sum at h)
        (exch_word-Exchanged a b m (ground arith))
        (swap_words-Exchanged n (a + 8) (b + 8) (exch_word a b m) (ground arith)))

-- `swapfunc` ends and exchanges two blocks that are the same or lie apart, by words if `swaptype` is 0
-- or 1 and the blocks are whole words, and by bytes otherwise.
pub swapfunc-Exchanged :
    (a b n swaptype : ℕ) (m : ℕ → ℕ)
    → SameOrApart a b n
    → (swaptype ≤ 1 → n % 8 ≡ 0)
    → (m' : ℕ → ℕ) × (swapfunc a b n swaptype m ≡ some m') × Exchanged a b n m m'
unfolding swapfunc
swapfunc-Exchanged a b n swaptype m apart whole = elim (Bool-cases (leb swaptype 1)) [
  | inl by_words ↦
      let even : (n % 8 == 0) ≡ true = ground (arith, whole) in
      let all : n / 8 * 8 ≡ n = ground (arith, whole) in
      (
        swap_words (n / 8) a b m,
        rw (by_words, even) refl,
        rw all at (swap_words-Exchanged (n / 8) a b m (rw all apart)),
      )
  | inr by_bytes ↦ (swap_bytes n a b m, rw by_bytes refl, swap_bytes-Exchanged n a b m apart)
]
