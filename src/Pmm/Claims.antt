-- ===== src/Pmm/Claims.antt =====
-- pmm.c: the loops of `pmm_alloc_range` move pages from the free lists to the caller's list: what holds
-- between two states of them, and the step of one page.
use rix_draft.Base.{
  ℕ, ◌+◌, ◌-◌, ◌/◌, ◌%◌, ◌≤◌, ◌≡◌, ◌≢◌, refl, true, false, some, List, [], ◌∷◌, ◌++◌, u64, ◌==◌,
  arith, length, length-append, count, count-append, unlink, length-unlink, count-unlink,
}
use rix_draft.Base.Bits.{bit_or_step}
use rix_draft.Pmm.{Zone, page_size, page_at, address_belongs, mark, decrement}
use rix_draft.Pmm.Invariant.{Counted, total_free, free_at}
use rix_draft.Pmm.Range.{Run, claim}

-- Each frame of the zone that is not marked has its page on the free list.
abbrev pub IsListed : (ℕ → ℕ) → Zone → Type 0
IsListed flags z =
    (address : ℕ)
    → address_belongs address z ≡ true
    → flags (page_at z ((address - z.base) / page_size)) % 2 ≡ 0
    → 1 ≤ count (page_at z ((address - z.base) / page_size)) z.free_pages

abbrev pub Listed : (ℕ → ℕ) → List Zone → Type 0
Listed flags [] = Unit {0}
Listed flags (z ∷ zs) = IsListed flags z × Listed flags zs

-- A page that is not marked was not marked before.
abbrev pub Grown : (flags flags' : ℕ → ℕ) → Type 0
Grown flags flags' = (q : ℕ) → flags' q % 2 ≡ 0 → flags q % 2 ≡ 0

pub Listed-Grown :
    (flags flags' : ℕ → ℕ) (zs : List Zone)
    → Grown flags flags'
    → Listed flags zs
    → Listed flags' zs
Listed-Grown flags flags' [] g l = tt
Listed-Grown flags flags' (z ∷ zs) g l =
    (λ a b c. l.0 a b (g _ c), Listed-Grown flags flags' zs g l.1)

-- What the loops do to the zones, of which there may be one, and to the run with its list.
pub record Claimed (zs : List Zone) (r : Run) (out : List ℕ) (zs' : List Zone) (r' : Run)
    (out' : List ℕ) : Type 0 where
  pub list : r'.list ≡ some out'
  pub left : r'.left ≤ r.left
  pub took : length out' + r'.left ≡ length out + r.left
  pub counted : Counted zs'
  pub total : total_free zs + r'.left ≡ total_free zs' + r.left
  pub pages : (q : ℕ) → free_at q zs + count q out ≡ free_at q zs' + count q out'
  pub grown : Grown r.flags r'.flags
  pub listed : Listed r'.flags zs'

-- A state with the list, from which the loops begin.
pub record Ready (zs : List Zone) (r : Run) (out : List ℕ) : Type 0 where
  pub list : r.list ≡ some out
  pub counted : Counted zs
  pub listed : Listed r.flags zs

pub Claimed-refl :
    (zs : List Zone) (r : Run) (out : List ℕ) → Ready zs r out → Claimed zs r out zs r out
Claimed-refl zs r out h = record {
  list = h.list;
  left = omega arith;
  took = refl;
  counted = h.counted;
  total = refl;
  pages = λ q. refl;
  grown = λ q c. c;
  listed = h.listed;
}

pub Claimed-Ready :
    (zs zs' : List Zone) (r r' : Run) (out out' : List ℕ)
    → Claimed zs r out zs' r' out'
    → Ready zs' r' out'
Claimed-Ready zs zs' r r' out out' c = record {
  list = c.list;
  counted = c.counted;
  listed = c.listed;
}

pub Claimed-trans :
    (zs zs1 zs2 : List Zone) (r r1 r2 : Run) (out out1 out2 : List ℕ)
    → Claimed zs r out zs1 r1 out1
    → Claimed zs1 r1 out1 zs2 r2 out2
    → Claimed zs r out zs2 r2 out2
Claimed-trans zs zs1 zs2 r r1 r2 out out1 out2 c d = record {
  list = d.list;
  left = omega (arith, c.left, d.left);
  took = omega (arith, c.took, d.took);
  counted = d.counted;
  total = omega (arith, c.total, d.total);
  pages = λ q. omega (arith, c.pages q, d.pages q);
  grown = λ q e. c.grown q (d.grown q e);
  listed = d.listed;
}

mark-Grown : (flags : ℕ → ℕ) (page : ℕ) → Grown flags (mark flags page)
mark-Grown flags page q c = ground (arith, bit_or_step (flags q) 1)

mark-other : (flags : ℕ → ℕ) (page q : ℕ) → mark flags page q % 2 ≡ 0 → page ≢ q
mark-other flags page q c = ground (arith, bit_or_step (flags q) 1)

module _ (z : Zone) (r : Run) (out : List ℕ) (h : Ready (z ∷ []) r out) (page : ℕ) where
  abbrev pub claimed_zone : Zone
  claimed_zone = record z {
    free_count = decrement z.free_count;
    free_pages = unlink page z.free_pages;
  }

  abbrev pub claimed_run : Run
  claimed_run = record {
    left = r.left - 1;
    address = u64 (r.address + page_size);
    list = some (out ++ page ∷ []);
    flags = mark r.flags page;
  }

  pub claim-Claimed :
      1 ≤ count page z.free_pages
      → 1 ≤ r.left
      → (claim page z r ≡ some (claimed_zone, claimed_run))
        × Claimed (z ∷ []) r out (claimed_zone ∷ []) claimed_run (out ++ page ∷ [])
  unfolding claim
  claim-Claimed on some_left =
      let used : (count page z.free_pages == 0) ≡ false = ground arith in
      let shorter = length-unlink page z.free_pages on in
      (
        rw (used, h.list) refl,
        record {
          list = refl;
          left = omega arith;
          took = omega (arith, length-append out (page ∷ []));
          counted = (ground (arith, shorter, h.counted.0), tt);
          total = omega (arith, shorter);
          pages = λ q.
              ground (arith, count-unlink page q z.free_pages on, count-append q out (page ∷ []));
          grown = mark-Grown r.flags page;
          listed = (
            λ a b c.
                let q = page_at z ((a - z.base) / page_size) in
                let before = h.listed.0 a b (mark-Grown r.flags page q c) in
                let other = mark-other r.flags page q c in
                ground (arith, count-unlink page q z.free_pages on),
            tt,
          );
        },
      )
