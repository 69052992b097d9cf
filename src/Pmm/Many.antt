-- ===== src/Pmm/Many.antt =====
-- pmm.c: `pmm_alloc_pages` takes as many pages as there are, up to the number that is wanted.
use rix_draft.Base.{ℕ, ◌+◌, ◌-◌, ◌≡◌, false, List, length, count}
use rix_draft.Pmm.{Pmm, Zone, Drain}
use rix_draft.Pmm.Invariant.{Counted, total_free, free_at}

-- The pages that are wanted and there have moved from the free lists to the list.
pub record IsDrained (wanted : ℕ) (list : List ℕ) (zs zs' : List Zone) (d : Drain) : Type 0 where
  pub calm : d.stop ≡ false
  pub counted : Counted zs'
  pub left : d.wanted ≡ wanted - total_free zs
  pub total : total_free zs ≡ total_free zs' + (wanted - d.wanted)
  pub took : length d.list ≡ length list + (wanted - d.wanted)
  pub kept : (q : ℕ) → free_at q zs + count q list ≡ free_at q zs' + count q d.list
