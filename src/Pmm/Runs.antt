-- ===== src/Pmm/Runs.antt =====
-- pmm.c: `pmm_alloc_range` on a run of free frames.
use rix_draft.Base.{
  ℕ, zero, suc, ◌+◌, ◌-◌, ◌*◌, ◌/◌, ◌%◌, ◌^◌, ◌<◌, ◌≤◌, ◌≡◌, refl, ap, ◌∙◌, true, false, some, List,
  [], ◌∷◌, ◌++◌, bit_and, u64, ◌==◌, arith,
}
use mathlib.Core.List.{append-nil, append_assoc}
use rix_draft.Base.Bits.{bit_and_mask}
use rix_draft.Align.{round_down}
use rix_draft.Pmm.{Pmm, Zone, page_size, page_at, address_belongs, mark, nonfree}
use rix_draft.Pmm.Invariant.{Counted}
use rix_draft.Pmm.Range.{Run, range_zone, range_zones, alloc_range}
use rix_draft.Pmm.Claims.{Listed, Ready, claimed_zone, claimed_run, claim-Claimed, Claimed-Ready}

-- The page structure of the frame at an address.
abbrev pub frame_page : Zone → ℕ → ℕ
frame_page z address = page_at z ((address - z.base) / page_size)

-- The structures of so many frames.
abbrev pub pages_along : (page_of : ℕ → ℕ) (address n : ℕ) → List ℕ
pages_along page_of address zero = []
pages_along page_of address (suc n) = page_of address ∷ pages_along page_of (address + page_size) n

-- The frames from an address on lie in the zone, and none is marked.
pub record IsClear (z : Zone) (flags : ℕ → ℕ) (address n : ℕ) : Type 0 where
  pub inside : (i : ℕ) → i < n → address_belongs (address + i * page_size) z ≡ true
  pub clear : (i : ℕ) → i < n → flags (frame_page z (address + i * page_size)) % 2 ≡ 0
  pub above : z.base ≤ address
  pub fits : address + n * page_size < 2 ^ 64

IsClear-rest :
    (z : Zone) (flags : ℕ → ℕ) (address n : ℕ)
    → IsClear z flags address (suc n)
    → IsClear z (mark flags (frame_page z address)) (address + page_size) n
IsClear-rest z flags address n h = record {
  inside = λ i l.
      let next : address + page_size + i * page_size ≡ address + suc i * page_size = omega arith in
      rw next (h.inside (suc i) (omega arith));
  clear = λ i l.
      let next : address + page_size + i * page_size ≡ address + suc i * page_size = omega arith in
      rw next (ground (arith, h.clear (suc i) (omega arith), h.above));
  above = omega (arith, h.above);
  fits = omega (arith, h.fits);
}

append_assoc_at : (xs : List ℕ) (x : ℕ) (ys : List ℕ) → (xs ++ x ∷ []) ++ ys ≡ xs ++ x ∷ ys
append_assoc_at xs x ys = rw append_assoc refl

range_zone-run :
    (rounds : ℕ) (z : Zone) (r : Run) (out : List ℕ)
    → Ready (z ∷ []) r out
    → rounds ≤ r.left
    → IsClear z r.flags r.address rounds
    → (z' : Zone) × (r' : Run) × (range_zone rounds z r ≡ some (z', r'))
      × (r'.list ≡ some (out ++ pages_along (frame_page z) r.address rounds))
      × (r'.left + rounds ≡ r.left)
unfolding range_zone
range_zone-run zero z r out h enough clear = (z, r, refl, rw append-nil h.list, omega arith)
range_zone-run (suc rounds) z r out h enough clear =
    let page = frame_page z r.address in
    let start : r.address + 0 * page_size ≡ r.address = omega arith in
    let inside : address_belongs r.address z ≡ true = rw start at (clear.inside 0 (omega arith)) in
    let even : r.flags page % 2 ≡ 0 = rw start at (clear.clear 0 (omega arith)) in
    let free : (bit_and (r.flags page) nonfree == 0) ≡ true =
      ground (arith, bit_and_mask 1 (r.flags page)) in
    let on = h.listed.0 r.address inside even in
    let (run1, c) = claim-Claimed z r out h page on (omega arith) in
    let next : u64 (r.address + page_size) ≡ r.address + page_size = omega (arith, clear.fits) in
    let rest : IsClear z (mark r.flags page) (u64 (r.address + page_size)) rounds =
      rw next (IsClear-rest z r.flags r.address rounds clear) in
    let along : ℕ → List ℕ = λ a. out ++ page ∷ pages_along (frame_page z) a rounds in
    let (z', r', run2, list, left) =
      range_zone-run rounds (claimed_zone z r out h page) (claimed_run z r out h page)
        (out ++ page ∷ []) (Claimed-Ready _ _ _ _ _ _ c) (omega arith)
        (record {
          inside = rest.inside;
          clear = rest.clear;
          above = rest.above;
          fits = rest.fits;
        }) in
    (
      z',
      r',
      rw (range_zone, inside, free, run1, run2) refl,
      list ∙ ap some (append_assoc_at out page _ ∙ ap along next),
      omega (arith, left),
    )

-- Where the frames from the page of an address on lie in the first zone and none is marked,
-- `pmm_alloc_range` takes all that it is asked for, and appends their pages in the order of their
-- addresses. Each zone counts its free pages and has each frame that is not marked on its free list.
pub alloc_range_run :
    (address wanted : ℕ) (out : List ℕ) (z : Zone) (zs : List Zone) (s : Pmm)
    → s.zone_list ≡ z ∷ zs
    → Counted (z ∷ zs)
    → Listed s.flags (z ∷ zs)
    → IsClear z s.flags (round_down address page_size) wanted
    → (s' : Pmm) × (alloc_range address wanted (some out) s
        ≡ some (
          wanted,
          some (out ++ pages_along (frame_page z) (round_down address page_size) wanted),
          s',
        ))
unfolding alloc_range range_zones
alloc_range_run address zero out z zs s e counted listed clear = (s, rw append-nil refl)
alloc_range_run address (suc n) out z zs s e counted listed clear =
    let start : Run = record {
      left = suc n;
      address = round_down address page_size;
      list = some out;
      flags = s.flags;
    } in
    let ready : Ready (z ∷ []) start out = record {
      list = refl;
      counted = (counted.0, tt);
      listed = (listed.0, tt);
    } in
    let (z', r', run, list, left) = range_zone-run (suc n) z start out ready (omega arith) clear in
    let several : (suc n == 0) ≡ false = ground arith in
    let done : (r'.left == 0) ≡ true = ground (arith, left) in
    let all : suc n - r'.left ≡ suc n = omega (arith, left) in
    (record s { zone_list = z' ∷ zs; flags = r'.flags }, rw (several, e, run, done, all, list) refl)
