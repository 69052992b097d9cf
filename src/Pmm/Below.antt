-- ===== src/Pmm/Below.antt =====
-- pmm.c: free pages that lie below the memory that `balloc` gives out next, which the `memset` of
-- `pmm_add_zone` leaves alone.
use rix_draft.Base.{ℕ, zero, suc, ◌+◌, ◌*◌, ◌≤◌, ◌≡◌, refl, true, List, [], ◌∷◌, ◌++◌, arith}
use rix_draft.Pmm.{Zone, page_bytes, nodes_spared, zones_spared}
use rix_draft.Pmm.Invariant.{pages_from}

abbrev pub PagesBelow : ℕ → List ℕ → Type 0
PagesBelow hi [] = Unit {0}
PagesBelow hi (p ∷ ps) = (p + page_bytes ≤ hi) × PagesBelow hi ps

-- The free pages of all zones.
abbrev pub Below : ℕ → List Zone → Type 0
Below hi [] = Unit {0}
Below hi (z ∷ zs) = PagesBelow hi z.free_pages × Below hi zs

PagesBelow-le : (lo hi : ℕ) (ps : List ℕ) → lo ≤ hi → PagesBelow lo ps → PagesBelow hi ps
PagesBelow-le lo hi [] h b = tt
PagesBelow-le lo hi (p ∷ ps) h b = (omega (arith, b.0), PagesBelow-le lo hi ps h b.1)

pub PagesBelow-pages_from :
    (hi array index left : ℕ)
    → array + (index + left) * page_bytes ≤ hi
    → PagesBelow hi (pages_from array index left)
PagesBelow-pages_from hi array index zero h = tt
PagesBelow-pages_from hi array index (suc left) h =
    (omega arith, PagesBelow-pages_from hi array (index + 1) left (omega arith))

-- One more zone, and a higher end.
pub Below-append :
    (lo hi : ℕ) (zs : List Zone) (z : Zone)
    → lo ≤ hi
    → Below lo zs
    → PagesBelow hi z.free_pages
    → Below hi (zs ++ z ∷ [])
Below-append lo hi [] z h b new = (new, tt)
Below-append lo hi (y ∷ zs) z h b new =
    (PagesBelow-le lo hi y.free_pages h b.0, Below-append lo hi zs z h b.1 new)

nodes_spared-PagesBelow :
    (hi array bytes : ℕ) (ps : List ℕ)
    → hi ≤ array
    → PagesBelow hi ps
    → nodes_spared array bytes ps ≡ true
unfolding nodes_spared
nodes_spared-PagesBelow hi array bytes [] h b = refl
nodes_spared-PagesBelow hi array bytes (p ∷ ps) h b =
    ground (arith, b.0, nodes_spared-PagesBelow hi array bytes ps h b.1)

pub zones_spared-Below :
    (hi array bytes : ℕ) (zs : List Zone)
    → hi ≤ array
    → Below hi zs
    → zones_spared array bytes zs ≡ true
unfolding zones_spared
zones_spared-Below hi array bytes [] h b = refl
zones_spared-Below hi array bytes (z ∷ zs) h b =
    rw
      (
        nodes_spared-PagesBelow hi array bytes z.free_pages h b.0,
        zones_spared-Below hi array bytes zs h b.1,
      )
      refl
