-- ===== src/CString/Fill.antt =====
-- string.c: the bytes that `memset` writes.
use rix_draft.Base.{
  ℕ, zero, suc, ◌+◌, ◌-◌, ◌*◌, ◌/◌, ◌<◌, ◌≡◌, refl, Bool, true, ◌&&◌, bit_and, u8, ltb, leb, ◌==◌,
  if◌then◌else◌, arith, ==_iff, Bool-cases, inl, inr,
}
use rix_draft.Base.Bits.{bit_and_mask}
use rix_draft.CString.{
  Memory, poke, store_bytes, store_word, store_words, spread, unaligned, memset,
}

-- The bytes from `lo` up to `hi` are `b`, and all others are as before.
abbrev pub filled : ℕ → ℕ → ℕ → Memory → Memory
filled lo hi b m a = if leb lo a && ltb a hi then b else m a

store_bytes_lem :
    (n dst b : ℕ) (m : Memory) (a : ℕ) → store_bytes n dst b m a ≡ filled dst (dst + n) b m a
unfolding store_bytes
store_bytes_lem zero dst b m a = ground arith
store_bytes_lem (suc n) dst b m a = ground (arith, store_bytes_lem n (dst + 1) b (poke m dst b) a)

all_below : ℕ → (ℕ → Bool) → Bool
all_below zero p = true
all_below (suc n) p = p n && all_below n p

all_below-at : (n : ℕ) (p : ℕ → Bool) (x : ℕ) → all_below n p ≡ true → x < n → p x ≡ true
unfolding all_below
all_below-at zero p x h lt = absurd (omega arith)
all_below-at (suc n) p x h lt = ground (arith, all_below-at n p x)

spread_table : all_below 256 (λ b. spread b == b * 0x0101_0101_0101_0101) ≡ true
unfolding all_below spread
spread_table = refl

spread_lem : (b : ℕ) → b < 256 → spread b ≡ b * 0x0101_0101_0101_0101
spread_lem b h = (==_iff _ _).0 (all_below-at 256 _ b spread_table h)

store_word_lem :
    (dst b : ℕ) (m : Memory) (a : ℕ)
    → b < 256
    → store_word dst (b * 0x0101_0101_0101_0101) m a ≡ filled dst (dst + 8) b m a
store_word_lem dst b m a h = ground arith

store_words_lem :
    (n dst b : ℕ) (m : Memory) (a : ℕ)
    → b < 256
    → store_words n dst (b * 0x0101_0101_0101_0101) m a ≡ filled dst (dst + n * 8) b m a
unfolding store_words
store_words_lem zero dst b m a h = ground arith
store_words_lem (suc n) dst b m a h = ground (
  arith,
  store_words_lem n (dst + 8) b (store_word dst (b * 0x0101_0101_0101_0101) m) a,
  store_word_lem dst b m a,
)

-- The number of bytes that `memset` writes: the whole words of the aligned part count twice.
abbrev pub written : ℕ → ℕ → ℕ
written dest count =
    if ltb (unaligned dest) count then count + (count - unaligned dest) / 8 * 8 else count

memset_parts :
    (dest nabytes rest b : ℕ) (m : Memory) (a : ℕ)
    → b < 256
    → store_bytes rest
        (dest + nabytes + rest / 8 * 8)
        (u8 (b * 0x0101_0101_0101_0101))
        (store_words
          (rest / 8)
          (dest + nabytes)
          (b * 0x0101_0101_0101_0101)
          (store_bytes nabytes dest b m))
        a
      ≡ filled dest (dest + (nabytes + rest + rest / 8 * 8)) b m a
memset_parts dest nabytes rest b m a h =
    let m1 = store_bytes nabytes dest b m in
    let m2 = store_words (rest / 8) (dest + nabytes) (b * 0x0101_0101_0101_0101) m1 in
    let low : u8 (b * 0x0101_0101_0101_0101) ≡ b = omega arith in
    rw low (
      ground (
        arith,
        store_bytes_lem rest (dest + nabytes + rest / 8 * 8) b m2 a,
        store_words_lem (rest / 8) (dest + nabytes) b m1 a,
        store_bytes_lem nabytes dest b m a,
      ))

-- `memset(dest, c, count)` returns `dest`, sets the bytes from `dest` on, `written` many, to the low
-- byte of `c`, and changes no other byte. From 8 aligned bytes on these are more than `count`.
pub memset_lem :
    (dest c count : ℕ) (m : Memory) (a : ℕ)
    → ((memset dest c count m).0 ≡ dest)
      × ((memset dest c count m).1 a ≡ filled dest (dest + written dest count) (u8 c) m a)
unfolding memset
memset_lem dest c count m a =
    let val : bit_and c 0xff ≡ u8 c = bit_and_mask 8 c in
    elim (Bool-cases (ltb (unaligned dest) count)) [
      | inl long ↦
          let nabytes = unaligned dest in
          let split : count + (count - nabytes) / 8 * 8
              ≡ nabytes + (count - nabytes) + (count - nabytes) / 8 * 8 =
            ground arith in
          rw (long, val, spread_lem (u8 c) (omega arith), split)
            (refl, memset_parts dest nabytes (count - nabytes) (u8 c) m a (omega arith))
      | inr short ↦
          let low : u8 (u8 c) ≡ u8 c = omega arith in
          rw (short, val, low) (refl, store_bytes_lem count dest (u8 c) m a)
    ]
