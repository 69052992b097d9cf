-- ===== src/Pmm/AllocRange.antt =====
-- pmm.c: `pmm_alloc_range` as a whole moves pages from the free lists to the caller's list, one for
-- each page that it reports.
use rix_draft.Pmm.{Pmm}
