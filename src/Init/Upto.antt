-- ===== src/Init/Upto.antt =====
-- init.c: which hooks `kernel_init_upto` runs.
use mathlib.Core.List.{append_assoc, append-nil, map-append}
use rix_draft.Base.{
  ℕ, ◌≤◌, ◌≡◌, refl, sym, ◌∙◌, List, [], ◌∷◌, ◌++◌, map, true, arith, u32, ◌+◌, leb, if◌then◌else◌,
  Bool-cases, inl, inr,
}
use rix_draft.Init.{Hook, Boot, run_hooks, kernel_init_upto}

-- The hooks up to the first one of a later stage, and the hooks from that one on.
abbrev pub due : ℕ → List Hook → List Hook
due upto [] = []
due upto (h ∷ hs) = if leb h.stage upto then h ∷ due upto hs else []

abbrev pub later : ℕ → List Hook → List Hook
later upto [] = []
later upto (h ∷ hs) = if leb h.stage upto then later upto hs else h ∷ hs

-- A hook runs one stage before its own.
abbrev pub entry : Hook → Hook × ℕ
entry h = (h, u32 (h.stage + 0xffff_ffff))

run_hooks_lem :
    (upto : ℕ) (hs : List Hook) (stage : ℕ) (log : List (Hook × ℕ))
    → ((run_hooks upto hs stage log).hooks ≡ later upto hs)
      × ((run_hooks upto hs stage log).log ≡ log ++ map entry (due upto hs))
unfolding run_hooks
run_hooks_lem upto [] stage log = (refl, sym (append-nil _))
run_hooks_lem upto (h ∷ hs) stage log = elim (Bool-cases (leb h.stage upto)) [
  | inl now ↦
      let rest = run_hooks_lem upto hs (u32 (h.stage + 0xffff_ffff)) (log ++ entry h ∷ []) in
      rw now (rest.0, rest.1 ∙ append_assoc log _ _)
  | inr not_yet ↦ rw not_yet (refl, sym (append-nil _))
]

-- `kernel_init_upto(upto)` runs, in the order of the table and each once, the hooks up to the first
-- one of a later stage, keeps the others, and leaves the stage at `upto`. Each hook sees the stage
-- before its own.
pub kernel_init_upto_lem :
    (upto : ℕ) (b : Boot)
    → kernel_init_upto upto b ≡ record {
      hooks = later upto b.hooks;
      stage = upto;
      log = b.log ++ map entry (due upto b.hooks);
    }
unfolding kernel_init_upto
kernel_init_upto_lem upto b =
    let runs = run_hooks_lem upto b.hooks b.stage b.log in
    λ i. record { hooks = runs.0 i; stage = upto; log = runs.1 i }

due-later : (a b : ℕ) (hs : List Hook) → a ≤ b → due a hs ++ due b (later a hs) ≡ due b hs
due-later a b [] h = refl
due-later a b (x ∷ hs) h = elim (Bool-cases (leb x.stage a)) [
  | inl now ↦
      let also : leb x.stage b ≡ true = ground arith in rw (now, also, due-later a b hs h) refl
  | inr not_yet ↦ rw not_yet refl
]

later-later : (a b : ℕ) (hs : List Hook) → a ≤ b → later b (later a hs) ≡ later b hs
later-later a b [] h = refl
later-later a b (x ∷ hs) h = elim (Bool-cases (leb x.stage a)) [
  | inl now ↦
      let also : leb x.stage b ≡ true = ground arith in rw (now, also, later-later a b hs h) refl
  | inr not_yet ↦ rw not_yet refl
]

-- Going to a stage by way of an earlier one is the same as going there at once.
pub kernel_init_upto_twice :
    (early upto : ℕ) (b : Boot)
    → early ≤ upto
    → kernel_init_upto upto (kernel_init_upto early b) ≡ kernel_init_upto upto b
kernel_init_upto_twice early upto b h =
    rw
      (
        kernel_init_upto_lem early b,
        kernel_init_upto_lem upto b,
        kernel_init_upto_lem upto _,
        later-later early upto b.hooks h,
        append_assoc b.log (map entry (due early b.hooks)) _,
        ← map-append entry (due early b.hooks) _,
        due-later early upto b.hooks h,
      )
      refl
