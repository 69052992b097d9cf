-- ===== src/CString.antt =====
-- string.c: `memset` and `memcpy` on a memory of bytes. Addresses do not wrap here: an object lies
-- below 2 ^ 64. `memchr`, `memcmp` and `memmove` are stubs in the
-- code: they read and write nothing.
pub mod Fill
pub mod Copy
use rix_draft.Base.{
  ℕ, zero, suc, ◌+◌, ◌-◌, ◌*◌, ◌/◌, ◌%◌, ◌^◌, bit_and, bit_or, u8, u64, sub64, ◌<<<◌, ltb, ◌==◌,
  if◌then◌else◌,
}

abbrev pub Memory : Type 0
Memory = ℕ → ℕ

abbrev pub poke : Memory → ℕ → ℕ → Memory
poke m p b a = if a == p then b else m a

-- `for (; n > 0; n--) *dst++ = b;`
unfoldable pub store_bytes : ℕ → ℕ → ℕ → Memory → Memory
store_bytes zero dst b m = m
store_bytes (suc n) dst b m = store_bytes n (dst + 1) b (poke m dst b)

-- A store of eight bytes, the lowest first.
abbrev pub store_word : ℕ → ℕ → Memory → Memory
store_word dst val m =
    poke
      (poke
        (poke
          (poke
            (poke
              (poke (poke (poke m dst (u8 val)) (dst + 1) (u8 (val / 2 ^ 8))) (dst + 2)
                (u8 (val / 2 ^ 16)))
              (dst + 3) (u8 (val / 2 ^ 24)))
            (dst + 4) (u8 (val / 2 ^ 32)))
          (dst + 5) (u8 (val / 2 ^ 40)))
        (dst + 6) (u8 (val / 2 ^ 48)))
      (dst + 7) (u8 (val / 2 ^ 56))

-- The loop over `abytes` words.
unfoldable pub store_words : ℕ → ℕ → ℕ → Memory → Memory
store_words zero dst val m = m
store_words (suc n) dst val m = store_words n (dst + 8) val (store_word dst val m)

-- `val |= val << 8; val |= val << 16; val |= val << 32;`
unfoldable pub spread : ℕ → ℕ
spread val =
    let val1 = bit_or val (u64 (val <<< 8)) in
    let val2 = bit_or val1 (u64 (val1 <<< 16)) in bit_or val2 (u64 (val2 <<< 32))

-- `nabytes`: the bytes up to the next multiple of 8.
abbrev pub unaligned : ℕ → ℕ
unaligned dest = bit_and (sub64 0 dest) 7

-- The last loop runs `count` times, and `count` is not lowered by the bytes of the words.
unfoldable pub memset : (dest c count : ℕ) → Memory → ℕ × Memory
memset dest c count m =
    let nabytes = unaligned dest in
    let val = bit_and c 0xff in
    if ltb nabytes count
    then (let rest = count - nabytes in
        let m1 = store_bytes nabytes dest (u8 c) m in
        let m2 = store_words (rest / 8) (dest + nabytes) (spread val) m1 in
        (dest, store_bytes rest (dest + nabytes + rest / 8 * 8) (u8 (spread val)) m2))
    else (dest, store_bytes count dest (u8 val) m)

unfoldable pub copy_bytes : ℕ → ℕ → ℕ → Memory → Memory
copy_bytes zero dst src m = m
copy_bytes (suc n) dst src m = copy_bytes n (dst + 1) (src + 1) (poke m dst (m src))

unfoldable pub memcpy : (dest src count : ℕ) → Memory → ℕ × Memory
memcpy dest src count m = (dest, copy_bytes count dest src m)

-- `NULL` is 0.
unfoldable pub memchr : (ptr value count : ℕ) → Memory → ℕ × Memory
memchr ptr value count m = (0, m)

unfoldable pub memcmp : (a b count : ℕ) → Memory → ℕ × Memory
memcmp a b count m = (0, m)

unfoldable pub memmove : (dest src count : ℕ) → Memory → ℕ × Memory
memmove dest src count m = (0, m)
