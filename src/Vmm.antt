-- ===== src/Vmm.antt =====
-- vmm.c: the kernel's address space, by the addresses of its two list nodes and of the list of all
-- address spaces.
use rix_draft.Base.{◌≡◌, ◌≢◌, List, [], ◌∷◌, count, arith, ◌∙◌}
use rix_draft.LinkedList.{Ptr, null, Links, Cmd, ◌>>◌, stepping, list_init, list_add}
use rix_draft.LinkedList.Ring.{Ring, Spared, Ends, Ring-Spared}
use rix_draft.LinkedList.Insert.{Ring-list_init, Ring-list_add}

-- `region_list` and `node` of `kernel_aspace`.
pub record Aspace : Type 0 where
  pub region_list : Ptr
  pub node : Ptr

unfoldable pub vmm_init_preheap : (aspace_list : Ptr) (kernel_aspace : Aspace) → Cmd (Unit {0})
vmm_init_preheap aspace_list kernel_aspace = do
  list_init kernel_aspace.region_list
  list_add aspace_list kernel_aspace.node

-- In the ring of address spaces, `vmm_init_preheap` puts the kernel's first, and the kernel has an
-- empty ring of regions. No other links change.
pub vmm_init_preheap-Ring :
    (m : Links) (aspace_list : Ptr) (kernel : Aspace) (spaces : List Ptr)
    → Ring m aspace_list spaces
    → kernel.node ≢ null
    → kernel.region_list ≢ null
    → kernel.node ≢ kernel.region_list
    → count kernel.node (aspace_list ∷ spaces) ≡ 0
    → count kernel.region_list (aspace_list ∷ spaces) ≡ 0
    → Ends (vmm_init_preheap aspace_list kernel m) λ _ m'.
      Ring m' aspace_list (kernel.node ∷ spaces)
      × Ring m' kernel.region_list []
      × Spared (kernel.region_list ∷ kernel.node ∷ aspace_list ∷ spaces) m m'
unfolding vmm_init_preheap
vmm_init_preheap-Ring m aspace_list kernel spaces r node region apart fresh free =
    let (u, m1, run1, made) = Ring-list_init m kernel.region_list region in
    let kept : Ring m1 aspace_list spaces =
      Ring-Spared (kernel.region_list ∷ []) m m1 aspace_list spaces (λ p h. ground (arith, free))
        made.1 r in
    let (v, m2, run2, added) = Ring-list_add m1 aspace_list kernel.node spaces kept node fresh in
    let regions : Ring m2 kernel.region_list [] =
      Ring-Spared (kernel.node ∷ aspace_list ∷ spaces) m1 m2 kernel.region_list []
        (λ p h. ground (arith, free)) added.1 made.0 in
    (
      tt,
      m2,
      simp (vmm_init_preheap, stepping, run1, run2),
      (
        added.0,
        regions,
        λ p h.
            let first = made.1 p (ground arith) in
            let second = added.1 p (ground arith) in (second.0 ∙ first.0, second.1 ∙ first.1),
      ),
    )
