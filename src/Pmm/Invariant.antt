-- ===== src/Pmm/Invariant.antt =====
-- pmm.c: the counts of the free pages, and the total over the zones.
use mathlib.Core.List.{append-nil, append_assoc}
use rix_draft.Base.{
  ◌∙◌, ◌<◌, ◌^◌, u32, ltb, some, true, false, ℕ, zero, suc, ◌+◌, ◌*◌, ◌≡◌, refl, List, [], ◌∷◌,
  ◌++◌, arith, length, count,
}
use rix_draft.Pmm.{Zone, page_bytes, add_pages, page_at}

-- Each zone counts its free pages.
abbrev pub Counted : List Zone → Type 0
Counted [] = Unit {0}
Counted (z ∷ zs) = (z.free_count ≡ length z.free_pages) × Counted zs

abbrev pub total_free : List Zone → ℕ
total_free [] = 0
total_free (z ∷ zs) = length z.free_pages + total_free zs

-- How often a page stands on the free lists.
abbrev pub free_at : ℕ → List Zone → ℕ
free_at p [] = 0
free_at p (z ∷ zs) = count p z.free_pages + free_at p zs

pub Counted-append :
    (zs : List Zone) (z : Zone)
    → Counted zs
    → z.free_count ≡ length z.free_pages
    → Counted (zs ++ z ∷ [])
Counted-append [] z c e = (e, tt)
Counted-append (y ∷ zs) z c e = (c.0, Counted-append zs z c.1 e)

pub total_free-append :
    (zs : List Zone) (z : Zone) → total_free (zs ++ z ∷ []) ≡ total_free zs + length z.free_pages
total_free-append [] z = omega arith
total_free-append (y ∷ zs) z = omega (arith, total_free-append zs z)

-- The pages of an array in order, from an index on.
abbrev pub pages_from : ℕ → ℕ → ℕ → List ℕ
pages_from array index zero = []
pages_from array index (suc left) = (array + index * page_bytes) ∷ pages_from array (index + 1) left

pub length-pages_from : (array index left : ℕ) → length (pages_from array index left) ≡ left
length-pages_from array index zero = refl
length-pages_from array index (suc left) = omega (arith, length-pages_from array (index + 1) left)

add_pages-step :
    (fuel index frames : ℕ) (z : Zone)
    → index < frames
    → frames < 2 ^ 32
    → add_pages (suc fuel) frames index z
      ≡ add_pages fuel frames (index + 1) (record z {
        free_count = z.free_count + 1;
        free_pages = z.free_pages ++ page_at z index ∷ [];
      })
unfolding add_pages
add_pages-step fuel index frames z h small =
    let more : ltb index frames ≡ true = ground arith in
    let next : u32 (index + 1) ≡ index + 1 = omega arith in rw (add_pages, more, next) refl

-- The loop of `pmm_add_zone` links the pages of the array in order and ends, for fewer than 2 ^ 32
-- frames.
pub add_pages_lem :
    (left index frames : ℕ) (z : Zone)
    → index + left ≡ frames
    → frames < 2 ^ 32
    → add_pages (suc left) frames index z
      ≡ some (record z {
        free_count = z.free_count + left;
        free_pages = z.free_pages ++ pages_from z.page_array index left;
      })
unfolding add_pages
add_pages_lem zero index frames z e small =
    let ends : ltb index frames ≡ false = ground arith in
    let sum : z.free_count + 0 ≡ z.free_count = omega arith in
    rw (add_pages, ends, append-nil, sum) refl
add_pages_lem (suc left) index frames z e small =
    let sum : z.free_count + suc left ≡ z.free_count + 1 + left = omega arith in
    add_pages-step (suc left) index frames z (omega arith) small
    ∙ rw (add_pages_lem left (index + 1) frames _ (omega arith) small, append_assoc, sum) refl
