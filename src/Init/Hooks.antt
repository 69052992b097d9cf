-- ===== src/Init/Hooks.antt =====
-- init.c: the table of the hooks in order, and what the stages make of it.
use rix_draft.Base.{
  ℕ, zero, suc, ◌+◌, ◌≤◌, ◌<◌, ◌≡◌, refl, ◌≢◌, List, [], ◌∷◌, map, Bool, false, not, some, leb,
  if◌then◌else◌, arith, Bool-cases, inl, inr, ap, ◌∙◌,
}
use rix_draft.QSort.{greater}
use rix_draft.QSort.Moves.{Moved}
use rix_draft.QSort.Order.{SortedOn}
use rix_draft.QSort.Sorts.{qsort-Sorts}
use rix_draft.Init.{Hook, hook_cmp, hooks_from, init_hooks_init, kernel_init_upto}
use rix_draft.Init.Order.{hook_cmp-IsComparison}
use rix_draft.Init.Upto.{due, later, entry, kernel_init_upto_lem}

-- The hooks of a table that pass a test, in its order.
abbrev pub select : (Hook → Bool) → List Hook → List Hook
select p [] = []
select p (h ∷ hs) = if p h then h ∷ select p hs else select p hs

stage_order : (a b : Hook) → hook_cmp a b ≢ greater → a.stage ≤ b.stage
unfolding hook_cmp
stage_order a b h = ground (arith, h)

-- From a hook of a later stage on all hooks are of later stages.
later_all :
    (upto i n : ℕ) (table : ℕ → Hook)
    → ((j : ℕ) → i ≤ j → j < i + n → upto < (table j).stage)
    → (select (λ h. leb h.stage upto) (hooks_from table i n) ≡ [])
      × (select (λ h. not (leb h.stage upto)) (hooks_from table i n) ≡ hooks_from table i n)
unfolding hooks_from
later_all upto i zero table h = (refl, refl)
later_all upto i (suc n) table h =
    let no : leb (table i).stage upto ≡ false = ground (arith, h i) in
    let rest = later_all upto (suc i) n table (λ j l k. h j (omega arith) (omega arith)) in
    rw (no, rest.0, rest.1) (refl, refl)

due-select :
    (upto i n : ℕ) (table : ℕ → Hook)
    → SortedOn hook_cmp i (i + n) table
    → (due upto (hooks_from table i n) ≡ select (λ h. leb h.stage upto) (hooks_from table i n))
      × (later upto (hooks_from table i n)
          ≡ select (λ h. not (leb h.stage upto)) (hooks_from table i n))
unfolding hooks_from
due-select upto i zero table s = (refl, refl)
due-select upto i (suc n) table s = elim (Bool-cases (leb (table i).stage upto)) [
  | inl now ↦
      let rest =
        due-select upto (suc i) n table (λ j k l jk h. s j k (omega arith) jk (omega arith)) in
      rw now (ap (λ t. table i ∷ t) rest.0, rest.1)
  | inr not_yet ↦
      let all = later_all upto (suc i) n table (λ j l h. ground (
        arith,
        not_yet,
        stage_order (table i) (table j) (s i j (omega arith) (omega arith) (omega arith)),
      )) in
      rw (not_yet, all.0, all.1) (refl, refl)
]

-- `init_hooks_init` ends, and leaves the hooks of the table, exchanged among each other, in the order
-- of `hook_cmp`. After it `kernel_init_upto(upto)` runs all hooks up to that stage and no other, each
-- once and in the order of the table, and keeps all others.
pub init_hooks_init-kernel_init_upto :
    (address num_hooks : ℕ) (table : ℕ → Hook)
    → (sorted : ℕ → Hook) × (init_hooks_init address num_hooks table ≡ some sorted)
      × Moved 0 num_hooks table sorted
      × SortedOn hook_cmp 0 num_hooks sorted
      × ((upto stage : ℕ)
          → kernel_init_upto upto
              (record { hooks = hooks_from sorted 0 num_hooks; stage = stage; log = [] })
            ≡ record {
              hooks = select (λ h. not (leb h.stage upto)) (hooks_from sorted 0 num_hooks);
              stage = upto;
              log = map entry (select (λ h. leb h.stage upto) (hooks_from sorted 0 num_hooks));
            })
unfolding init_hooks_init
init_hooks_init-kernel_init_upto address num_hooks table =
    let whole : 0 + num_hooks ≡ num_hooks = omega arith in
    let (sorted, e, s, m) =
      qsort-Sorts hook_cmp hook_cmp-IsComparison.0 (suc num_hooks) _ 0 num_hooks table
        (omega arith) in
    (
      sorted,
      e,
      rw whole at m,
      rw whole at s,
      λ upto stage.
          let parts = due-select upto 0 num_hooks sorted s in
          kernel_init_upto_lem upto
            (record { hooks = hooks_from sorted 0 num_hooks; stage = stage; log = [] })
          ∙ (λ i. record { hooks = parts.1 i; stage = upto; log = map entry (parts.0 i) }),
    )
