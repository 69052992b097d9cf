-- ===== src/Kprint/Registry.antt =====
-- kernel/console/kprint.c: what registering and unregistering do to the list of the consoles.
use rix_draft.Base.{
  ℕ, zero, suc, ◌<◌, ◌≤◌, ◌≡◌, refl, ◌≢◌, ◌⊎◌, inl, inr, true, false, some, List, [], ◌∷◌, ◌++◌,
  ◌==◌, if◌then◌else◌, length, count, count-append, arith, Bool-cases,
}
use rix_draft.Kprint.{
  null, Consoles, link, is_registered, register_console, bypass, unlink_console, unregister_console,
  Operations, Call,
}

-- From `con` the `next` fields lead through the distinct consoles `xs` to `NULL`.
abbrev pub Chain : (ℕ → ℕ) → ℕ → List ℕ → Type 0
Chain next con [] = con ≡ null
Chain next con (x ∷ xs) = (con ≡ x) × (x ≢ null) × (count x xs ≡ 0) × Chain next (next x) xs

abbrev pub Lists : Consoles → List ℕ → Type 0
Lists s xs = Chain s.next s.console_list xs

is_registered_lem :
    (fuel : ℕ) (next : ℕ → ℕ) (newcon con : ℕ) (xs : List ℕ)
    → Chain next con xs
    → length xs < fuel
    → is_registered fuel next newcon con ≡ some (if count newcon xs == 0 then false else true)
unfolding is_registered
is_registered_lem zero next newcon con xs c f = absurd (omega arith)
is_registered_lem (suc fuel) next newcon con [] c f = ground arith
is_registered_lem (suc fuel) next newcon con (x ∷ xs) c f =
    ground (arith, is_registered_lem fuel next newcon (next x) xs)

Chain-link :
    (next : ℕ → ℕ) (p q con : ℕ) (xs : List ℕ)
    → count p xs ≡ 0
    → Chain next con xs
    → Chain (link next p q) con xs
Chain-link next p q con [] out c = c
Chain-link next p q con (x ∷ xs) out c =
    let other : (x == p) ≡ false = ground arith in
    (c.0, c.1, c.2, rw other (Chain-link next p q (next x) xs (ground arith) c.3))

second :
    (newcon x : ℕ) (next : ℕ → ℕ) (con : ℕ)
    → newcon ≢ x
    → con ≡ x
    → link (link next newcon (next con)) con newcon newcon ≡ next x
second newcon x next con ne e = ground arith

-- Where `register_console` puts a new console: second, or first in an empty list.
abbrev pub inserted : ℕ → List ℕ → List ℕ
inserted newcon [] = newcon ∷ []
inserted newcon (x ∷ xs) = x ∷ newcon ∷ xs

-- `register_console` ends, on one round of fuel more than there are consoles. It changes nothing if
-- the console is in the list, and otherwise puts it second, or first in an empty list.
pub register_console_lem :
    (fuel newcon : ℕ) (s : Consoles) (xs : List ℕ)
    → Lists s xs
    → newcon ≢ null
    → length xs < fuel
    → (s' : Consoles) × (register_console fuel newcon s ≡ some s')
      × (((1 ≤ count newcon xs) × (s' ≡ s))
          ⊎ ((count newcon xs ≡ 0) × Lists s' (inserted newcon xs)))
unfolding register_console
register_console_lem fuel newcon s [] c real f =
    let found = is_registered_lem fuel s.next newcon s.console_list [] c f in
    let empty : (s.console_list == null) ≡ true = ground arith in
    (
      record { console_list = newcon; next = link s.next newcon s.console_list },
      rw (register_console, found, empty) refl,
      inr (refl, (refl, real, refl, ground arith)),
    )
register_console_lem fuel newcon s (x ∷ xs) c real f =
    let found = is_registered_lem fuel s.next newcon s.console_list (x ∷ xs) c f in
    let some_console : (s.console_list == null) ≡ false = ground arith in
    elim (Bool-cases (count newcon (x ∷ xs) == 0)) [
      | inl fresh ↦
          let next' = link (link s.next newcon (s.next s.console_list)) s.console_list newcon in
          (
            record s { next = next' },
            rw (register_console, found, fresh, some_console) refl,
            inr (
              ground arith,
              (
                c.0,
                c.1,
                ground arith,
                (
                  ground (arith, c.0),
                  real,
                  ground arith,
                  rw (second newcon x s.next s.console_list (ground arith) c.0) (
                      Chain-link _ s.console_list newcon (s.next x) xs (ground arith) (
                        Chain-link s.next newcon (s.next s.console_list) (s.next x) xs
                          (ground arith) c.3)),
                ),
              ),
            ),
          )
      | inr known ↦ (s, rw (register_console, found, known) refl, inl (ground arith, refl))
    ]

-- The search finds the link to `delcon` and leads it past; other links stay.
bypass_lem :
    (fuel : ℕ) (next : ℕ → ℕ) (delcon con : ℕ) (pre post : List ℕ)
    → Chain next con (pre ++ delcon ∷ post)
    → 0 < length pre
    → length pre < fuel
    → (next' : ℕ → ℕ) × (bypass fuel next delcon con ≡ some next')
      × Chain next' con (pre ++ post)
      × ((a : ℕ) → count a pre ≡ 0 → next' a ≡ next a)
unfolding bypass
bypass_lem zero next delcon con pre post c ne f = absurd (omega arith)
bypass_lem (suc fuel) next delcon con [] post c ne f = absurd (omega arith)
bypass_lem (suc fuel) next delcon con (x ∷ []) post c ne f =
    let real : (con == null) ≡ false = ground arith in
    let here : (next con == delcon) ≡ true = ground (arith, c.0) in
    let hit : link next con (next delcon) x ≡ next delcon = ground (arith, c.0) in
    (
      link next con (next delcon),
      rw (real, here) refl,
      (
        c.0,
        c.1,
        ground arith,
        rw hit (Chain-link next con (next delcon) (next delcon) post (ground (arith, c.0)) (c.3).3),
      ),
      λ a out. ground arith,
    )
bypass_lem (suc fuel) next delcon con (x ∷ y ∷ pre) post c ne f =
    let real : (con == null) ≡ false = ground arith in
    let tail : Chain next (next x) (y ∷ pre ++ delcon ∷ post) = c.3 in
    let split = λ (p : ℕ). count-append p pre (delcon ∷ post) in
    let on : (next con == delcon) ≡ false = ground (arith, c.0, tail, split y) in
    let (next', run, chain, same) =
      bypass_lem fuel next delcon (next x) (y ∷ pre) post tail (omega arith) (omega arith) in
    let kept : next' x ≡ next x = same x (ground (arith, split x)) in
    (
      next',
      rw (real, on) (rw (c.0) run),
      (c.0, c.1, ground (arith, split x, count-append x pre post), rw kept chain),
      λ a out. same a (ground arith),
    )

unlink_console_lem :
    (fuel delcon : ℕ) (s : Consoles) (pre post : List ℕ)
    → Lists s (pre ++ delcon ∷ post)
    → length pre < fuel
    → (s' : Consoles) × (unlink_console fuel delcon s ≡ some s') × Lists s' (pre ++ post)
unfolding unlink_console
unlink_console_lem fuel delcon s [] post c f =
    let here : (s.console_list == delcon) ≡ true = ground arith in
    (record s { console_list = s.next delcon }, rw here refl, c.3)
unlink_console_lem fuel delcon s (x ∷ pre) post c f =
    let other : (s.console_list == delcon) ≡ false =
      ground (arith, c.0, c.2, count-append x pre (delcon ∷ post)) in
    let (next', run, chain, same) =
      bypass_lem fuel s.next delcon s.console_list (x ∷ pre) post c (omega arith) f in
    (record s { next = next' }, rw (unlink_console, other, run) refl, chain)

-- `unregister_console` takes a console out of the list, whatever its place, on one round of fuel
-- more than there are consoles. It calls the console's own `exit`, with the console, if that is not
-- `NULL`, and nothing else.
pub unregister_console_lem :
    (fuel delcon : ℕ) (ops : Operations) (s : Consoles) (pre post : List ℕ)
    → Lists s (pre ++ delcon ∷ post)
    → length pre < fuel
    → (s' : Consoles) × (unregister_console fuel ops delcon s
        ≡ some (
          s',
          if ops.exit delcon == 0
              then []
              else record { callback = ops.exit delcon; arguments = delcon ∷ [] } ∷ [],
        ))
      × Lists s' (pre ++ post)
unfolding unregister_console
unregister_console_lem fuel delcon ops s pre post c f =
    let (s', run, chain) = unlink_console_lem fuel delcon s pre post c f in
    (s', rw (unregister_console, run) refl, chain)

-- A console that is not `NULL` and new to the list, registered and unregistered again, leaves the
-- consoles in the list that were there, in their order, on one round of fuel more than there are
-- consoles.
pub unregister_console-register_console :
    (fuel newcon : ℕ) (ops : Operations) (s : Consoles) (xs : List ℕ)
    → Lists s xs
    → newcon ≢ null
    → count newcon xs ≡ 0
    → length xs < fuel
    → (s1 s2 : Consoles) × (calls : List Call) × (register_console fuel newcon s ≡ some s1)
      × (unregister_console fuel ops newcon s1 ≡ some (s2, calls))
      × Lists s2 xs
unregister_console-register_console fuel newcon ops s [] c real fresh f =
    let (s1, run1, cases) = register_console_lem fuel newcon s [] c real f in
    elim cases [
      | inl known ↦ absurd (omega (arith, known.0))
      | inr put ↦
          let (s2, run2, chain) = unregister_console_lem fuel newcon ops s1 [] [] put.1 f in
          (s1, s2, _, run1, run2, chain)
    ]
unregister_console-register_console fuel newcon ops s (x ∷ xs) c real fresh f =
    let (s1, run1, cases) = register_console_lem fuel newcon s (x ∷ xs) c real f in
    elim cases [
      | inl known ↦ absurd (omega (arith, fresh, known.0))
      | inr put ↦
          let (s2, run2, chain) =
            unregister_console_lem fuel newcon ops s1 (x ∷ []) xs put.1 (omega arith) in
          (s1, s2, _, run1, run2, chain)
    ]
