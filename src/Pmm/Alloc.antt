-- ===== src/Pmm/Alloc.antt =====
-- pmm.c: what adding a zone and allocating pages do to the counts and to the pages.
use rix_draft.Base.{
  ℕ, zero, suc, ◌+◌, ◌*◌, ◌/◌, ◌%◌, ◌<◌, ◌^◌, ◌≤◌, ◌≡◌, refl, ◌⊎◌, ◌≢◌, true, false, Option, none,
  some, List, [], ◌∷◌, ◌++◌, ltb, ◌==◌, if◌then◌else◌, arith, length, u64, inl, inr, sub64,
}
use rix_draft.Base.Bits.{bit_or_step, bit_and_mask}
use rix_draft.Balloc.{balloc, IsBalloc, balloc_lem}
use rix_draft.CString.Fill.{written}
use rix_draft.Pmm.Below.{Below, Below-append, PagesBelow-pages_from, zones_spared-Below}
use rix_draft.Pmm.{
  Pmm, Zone, no_error, invalid_args, page_size, page_bytes, add_zone, mark_taken, clear_flags,
  is_memory, take_page, alloc_page,
}
use rix_draft.Pmm.Invariant.{
  Counted, total_free, free_at, Counted-append, total_free-append, pages_from, length-pages_from,
  add_pages_lem,
}

-- The zone that `pmm_add_zone` links in, for the array that `balloc` returns.
abbrev pub new_zone : ℕ → ℕ → ℕ → Zone
new_zone base size array = record {
  base = base;
  size = size;
  page_array = array;
  free_count = size / page_size;
  free_pages = pages_from array 0 (size / page_size);
}

-- What `pmm_add_zone` leaves when it has linked a zone in, with its array at `array`.
pub record Added (base size : ℕ) (s : Pmm) (array : ℕ) (s' : Pmm) : Type 0 where
  pub zones : s'.zone_list ≡ s.zone_list ++ new_zone base size array ∷ []
  pub counted : Counted s'.zone_list
  pub total : total_free s'.zone_list ≡ total_free s.zone_list + size / page_size
  pub flags : (index : ℕ) → index < size / page_size → s'.flags (array + index * page_bytes) ≡ 0
  pub below : Below s'.boot.boot_alloc_end s'.zone_list
  pub behind : s.boot.boot_alloc_end ≤ array
  pub ends : s'.boot.boot_alloc_end ≤ s.boot.boot_alloc_end + size / page_size * page_bytes + 16
  pub moves : s.boot.boot_alloc_end ≤ s'.boot.boot_alloc_end

-- `written` counts the bytes of an aligned array twice.
pub written_lem :
    (array frames : ℕ)
    → array % 8 ≡ 0
    → array < 2 ^ 64
    → written array (frames * page_bytes) ≡ frames * (2 * page_bytes)
written_lem array frames aligned fits = ground (arith, bit_and_mask 3 (sub64 0 array))

-- `pmm_add_zone` refuses a zone of size 0 and changes nothing. It links any other zone in last,
-- with a page for each whole frame on the free list, in order, and with clear flags; the zones keep
-- counting their free pages, and the free pages still lie below the memory that `balloc` gives out
-- next, as they did. The zone is smaller than 16 TiB, and twice its array, with 16 bytes of padding,
-- fits in the memory behind the end of the boot allocator, which is not `NULL`.
pub add_zone_lem :
    (base size : ℕ) (s : Pmm)
    → Counted s.zone_list
    → Below s.boot.boot_alloc_end s.zone_list
    → size < 2 ^ 44
    → 1 ≤ s.boot.boot_alloc_end
    → s.boot.boot_alloc_end + size / page_size * (2 * page_bytes) + 16 ≤ 2 ^ 64
    → ((size ≡ 0) × (add_zone base size s ≡ some (invalid_args, s)))
      ⊎ ((array : ℕ) × (s' : Pmm) × (add_zone base size s ≡ some (no_error, s'))
          × Added base size s array s')
unfolding add_zone balloc
add_zone_lem base zero s c below small real room = inl (refl, refl)
add_zone_lem base (suc n) s c below small real room =
    let frames = suc n / page_size in
    let bytes = u64 (frames * page_bytes) in
    let array = (balloc bytes s.boot).0 in
    let boot = (balloc bytes s.boot).1 in
    let whole : bytes ≡ frames * page_bytes = omega arith in
    let got : IsBalloc bytes s.boot array boot = balloc_lem bytes s.boot (omega (arith, whole)) in
    let extent : written array bytes ≡ frames * (2 * page_bytes) =
      rw whole (written_lem array frames got.aligned (omega (arith, got.near))) in
    let linked =
      add_pages_lem frames 0 frames
        (record { base = base; size = suc n; page_array = array; free_count = 0; free_pages = [] })
        (omega arith) (omega arith) in
    let positive : ltb 0 (suc n) ≡ true = ground arith in
    let memory : is_memory array (written array bytes) ≡ true =
      ground (arith, extent, got.behind, got.near) in
    let spared =
      zones_spared-Below s.boot.boot_alloc_end array (written array bytes) s.zone_list got.behind
        below in
    let sum : 0 + frames ≡ frames = omega arith in
    let s' : Pmm = record {
      zone_list = s.zone_list ++ new_zone base (suc n) array ∷ [];
      flags = clear_flags array (written array bytes) s.flags;
      boot = boot;
    } in
    inr (
      array,
      s',
      rw (add_zone, positive, memory, spared, linked, sum) refl,
      record {
        zones = refl;
        counted = Counted-append s.zone_list _ c (rw length-pages_from refl);
        total = rw (total_free-append, length-pages_from) refl;
        flags = λ index h. ground (arith, extent);
        below =
            Below-append s.boot.boot_alloc_end boot.boot_alloc_end s.zone_list _
              (omega (arith, got.behind, got.holds)) below
              (PagesBelow-pages_from boot.boot_alloc_end array 0 frames
                (omega (arith, got.holds, whole)));
        behind = got.behind;
        ends = omega (arith, got.tight, got.near, whole);
        moves = omega (arith, got.behind, got.holds);
      },
    )

-- What a walk for one page finds: nothing, or a page that it takes off a free list.
abbrev pub Taken : List Zone → Option ℕ × List Zone → Type 0
Taken zs (none, rest) = (total_free zs ≡ 0) × (rest ≡ zs)
Taken zs (some p, rest) =
    Counted rest
    × (total_free zs ≡ suc (total_free rest))
    × ((q : ℕ) → free_at q zs ≡ (if p == q then 1 else 0) + free_at q rest)

Taken-cons :
    (z : Zone) (zs : List Zone) (r : Option ℕ × List Zone)
    → z.free_count ≡ length z.free_pages
    → z.free_count ≡ 0
    → Taken zs r
    → Taken (z ∷ zs) (r.0, z ∷ r.1)
Taken-cons z zs (none, rest) c e t = (omega arith, rw (t.1) refl)
Taken-cons z zs (some p, rest) c e t = ((c, t.0), omega (arith, t.1), λ q. omega (arith, t.2 q))

take_page-Zone :
    (z : Zone) (zs : List Zone) (ps : List ℕ)
    → z.free_pages ≡ ps
    → Counted (z ∷ zs)
    → Taken zs (take_page zs)
    → Taken (z ∷ zs) (take_page (z ∷ zs))
unfolding take_page
take_page-Zone z zs [] e c t =
    let empty : ltb 0 z.free_count ≡ false = ground (arith, c.0, e) in
    rw empty (Taken-cons z zs (take_page zs) c.0 (ground (arith, c.0, e)) t)
take_page-Zone z zs (p ∷ ps) e c t =
    let full : ltb 0 z.free_count ≡ true = ground (arith, c.0, e) in
    rw (full, e) ((ground (arith, c.0, e), c.1), ground (arith, e), λ q. ground (arith, e))

pub take_page-Taken : (zs : List Zone) → Counted zs → Taken zs (take_page zs)
take_page-Taken [] c = unfold take_page in (refl, refl)
take_page-Taken (z ∷ zs) c = take_page-Zone z zs z.free_pages refl c (take_page-Taken zs c.1)

-- What an allocation does to the flags: the page, if there is one, is marked as not free.
abbrev pub Marked : Option ℕ → (ℕ → ℕ) → (ℕ → ℕ) → Type 0
Marked none f f' = f' ≡ f
Marked (some p) f f' = (f' p % 2 ≡ 1) × ((q : ℕ) → q ≢ p → f' q ≡ f q)

mark_lem : (f : ℕ → ℕ) (page : Option ℕ) → Marked page f (mark_taken page f)
mark_lem f none = refl
mark_lem f (some p) = (ground (arith, bit_or_step (f p) 1), λ q ne. ground arith)

-- `pmm_alloc_page` reports success in every case. It takes one page off the free lists and marks
-- it, or, exactly when no page is free, writes no page and changes nothing.
pub alloc_page_lem :
    (s : Pmm)
    → Counted s.zone_list
    → ((alloc_page s).0 ≡ no_error)
      × Taken s.zone_list ((alloc_page s).1, (alloc_page s).2.zone_list)
      × Marked (alloc_page s).1 s.flags (alloc_page s).2.flags
      × ((alloc_page s).2.boot ≡ s.boot)
unfolding alloc_page
alloc_page_lem s c = (refl, take_page-Taken s.zone_list c, mark_lem s.flags _, refl)
