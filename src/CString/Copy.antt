-- ===== src/CString/Copy.antt =====
-- string.c: the bytes that `memcpy` writes.
use rix_draft.Base.{
  ℕ, zero, suc, ◌+◌, ◌-◌, ◌≤◌, ◌≡◌, refl, ◌⊎◌, inl, inr, ◌&&◌, ltb, leb, if◌then◌else◌, arith,
}
use rix_draft.CString.{Memory, poke, copy_bytes, memcpy}

-- The block at `dest` holds what stood in the block at `src`.
abbrev pub copied : (dest src count : ℕ) → Memory → Memory
copied dest src count m a = if leb dest a && ltb a (dest + count) then m (src + (a - dest)) else m a

copy_bytes_lem :
    (n dst src : ℕ) (m : Memory) (a : ℕ)
    → (src + n ≤ dst) ⊎ (dst ≤ src)
    → copy_bytes n dst src m a ≡ copied dst src n m a
unfolding copy_bytes
copy_bytes_lem zero dst src m a h = ground arith
copy_bytes_lem (suc n) dst src m a (inl h) =
    ground (arith, copy_bytes_lem n (dst + 1) (src + 1) (poke m dst (m src)) a (inl (omega arith)))
copy_bytes_lem (suc n) dst src m a (inr h) =
    ground (arith, copy_bytes_lem n (dst + 1) (src + 1) (poke m dst (m src)) a (inr (omega arith)))

-- `memcpy(dest, src, count)` returns `dest` and copies the block, and changes nothing else, when the
-- blocks do not overlap or the destination begins first.
pub memcpy_lem :
    (dest src count : ℕ) (m : Memory) (a : ℕ)
    → (src + count ≤ dest) ⊎ (dest ≤ src)
    → ((memcpy dest src count m).0 ≡ dest)
      × ((memcpy dest src count m).1 a ≡ copied dest src count m a)
unfolding memcpy
memcpy_lem dest src count m a h = (refl, copy_bytes_lem count dest src m a h)
