-- ===== src/Processor/Bootstrap.antt =====
-- processor.c: `processor_bootstrap`. Of a processor, the two fields that the code sets are kept.
use rix_draft.Base.{ℕ, ◌≡◌, ◌≢◌, [], ◌∷◌, Option, none, some, refl, arith}
use rix_draft.LinkedList.{Ptr, null, Links, Cmd, ◌>>◌, stepping, list_init, list_add}
use rix_draft.LinkedList.Ring.{Ring, Ends, Ring-Spared}
use rix_draft.LinkedList.Insert.{Ring-list_init, Ring-list_add}

pub record Processor : Type 0 where
  pub cpu_number : ℕ
  pub pset : Ptr

-- `first` is `processor_array[0]`.
pub record Processors : Type 0 where
  pub links : Links
  pub pset_count : ℕ
  pub first : Processor
  pub bsp : Processor

-- The addresses of the heads of the two lists, and of the node of `default_pset`.
pub record Globals : Type 0 where
  pub processor_list : Ptr
  pub pset_list : Ptr
  pub default_pset : Ptr

-- `num` has 32 bits. `pset` is not used.
unfoldable pub processor_init : (processor : Processor) (num : ℕ) (pset : Ptr) → Processor
processor_init processor num pset = record processor { cpu_number = num; pset = null }

-- The links that `processor_bootstrap` sets.
unfoldable pub link_psets : Globals → Cmd (Unit {0})
link_psets g = do
  list_init g.processor_list
  list_init g.pset_list
  list_add g.pset_list g.default_pset

unfoldable pub processor_bootstrap : Globals → Processors → Option Processors
unfolding link_psets processor_init
processor_bootstrap g s = elim (link_psets g s.links) [
  | none ↦ none
  | some (u, m) ↦ some (record {
    links = m;
    pset_count = 1;
    first = s.bsp;
    bsp = processor_init s.bsp 0 g.default_pset;
  })
]

module _ (g : Globals) where
  -- The heads and the node are different, and none is `NULL`.
  pub record Apart : Type 0 where
    pub processor_list : g.processor_list ≢ null
    pub pset_list : g.pset_list ≢ null
    pub default_pset : g.default_pset ≢ null
    pub lists : g.processor_list ≢ g.pset_list
    pub processors_node : g.processor_list ≢ g.default_pset
    pub psets_node : g.pset_list ≢ g.default_pset

  link_psets-Ring :
      (m : Links)
      → Apart
      → Ends
          (link_psets g m)
          λ _ m'. Ring m' g.processor_list [] × Ring m' g.pset_list (g.default_pset ∷ [])
  unfolding link_psets
  link_psets-Ring m apart =
      let (u, m1, run1, made1) = Ring-list_init m g.processor_list apart.processor_list in
      let (v, m2, run2, made2) = Ring-list_init m1 g.pset_list apart.pset_list in
      let (w, m3, run3, added) =
        Ring-list_add m2 g.pset_list g.default_pset [] made2.0 apart.default_pset
          (ground (arith, apart.psets_node)) in
      let kept : Ring m2 g.processor_list [] =
        Ring-Spared (g.pset_list ∷ []) m1 m2 g.processor_list []
          (λ p h. ground (arith, apart.lists)) made2.1 made1.0 in
      let kept' : Ring m3 g.processor_list [] =
        Ring-Spared (g.default_pset ∷ g.pset_list ∷ []) m2 m3 g.processor_list []
          (λ p h. ground (arith, apart.lists, apart.processors_node)) added.1 kept in
      (tt, m3, simp (link_psets, stepping, run1, run2, run3), (kept', added.0))

  -- `processor_bootstrap` leaves an empty list of processors and a list of one processor set. The boot
  -- processor is number 0 and in no set; the array holds it as it was before.
  pub processor_bootstrap_lem :
      (s : Processors)
      → Apart
      → (s' : Processors) × (processor_bootstrap g s ≡ some s')
        × Ring s'.links g.processor_list []
        × Ring s'.links g.pset_list (g.default_pset ∷ [])
        × (s'.pset_count ≡ 1)
        × (s'.bsp ≡ record { cpu_number = 0; pset = null })
        × (s'.first ≡ s.bsp)
  unfolding processor_bootstrap processor_init
  processor_bootstrap_lem s apart =
      let (u, m, run, rings) = link_psets-Ring s.links apart in
      (
        record {
          links = m;
          pset_count = 1;
          first = s.bsp;
          bsp = record { cpu_number = 0; pset = null };
        },
        rw (processor_bootstrap, run) refl,
        rings.0,
        rings.1,
        refl,
        refl,
        refl,
      )
