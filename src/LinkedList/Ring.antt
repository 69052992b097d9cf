-- ===== src/LinkedList/Ring.antt =====
-- list.h: rings of nodes. `Ring m head xs` says that from `head` the links lead through the
-- distinct nodes `xs` and back, in both directions.
use rix_draft.Base.{
  ◌+◌, ◌≤◌, ◌≡◌, ◌≢◌, List, [], Option, some, ◌∷◌, ◌++◌, count, count-append, arith,
}
use rix_draft.LinkedList.{Ptr, null, Links}

-- The links lead from `a` through `xs` to `b`, and back.
abbrev pub Chain : Links → Ptr → List Ptr → Ptr → Type 0
Chain m a [] b = (m.next a ≡ b) × (m.prev b ≡ a)
Chain m a (x ∷ xs) b = (m.next a ≡ x) × (m.prev x ≡ a) × Chain m x xs b

pub record Ring (m : Links) (head : Ptr) (xs : List Ptr) : Type 0 where
  pub chain : Chain m head xs head
  pub once : (p : Ptr) → count p (head ∷ xs) ≤ 1
  pub real : count null (head ∷ xs) ≡ 0

module _ (m : Links) where
  pub Chain-split :
      (a : Ptr) (xs : List Ptr) (y : Ptr) (ys : List Ptr) (b : Ptr)
      → Chain m a (xs ++ y ∷ ys) b
      → Chain m a xs y × Chain m y ys b
  Chain-split a [] y ys b c = ((c.0, c.1), c.2)
  Chain-split a (x ∷ xs) y ys b c =
      let rest = Chain-split x xs y ys b c.2 in ((c.0, c.1, rest.0), rest.1)

  pub Chain-join :
      (a : Ptr) (xs : List Ptr) (y : Ptr) (ys : List Ptr) (b : Ptr)
      → Chain m a xs y
      → Chain m y ys b
      → Chain m a (xs ++ y ∷ ys) b
  Chain-join a [] y ys b c d = (c.0, c.1, d)
  Chain-join a (x ∷ xs) y ys b c d = (c.0, c.1, Chain-join x xs y ys b c.2 d)

-- Links that agree on the nodes of a chain carry it over.
pub Chain-frame :
    (m m' : Links) (a : Ptr) (xs : List Ptr) (b : Ptr)
    → ((p : Ptr) → 1 ≤ count p (a ∷ xs) → m'.next p ≡ m.next p)
    → ((p : Ptr) → 1 ≤ count p xs + count p (b ∷ []) → m'.prev p ≡ m.prev p)
    → Chain m a xs b
    → Chain m' a xs b
Chain-frame m m' a [] b hn hp c = (ground (arith, hn a), ground (arith, hp b))
Chain-frame m m' a (x ∷ xs) b hn hp c = (
  ground (arith, hn a),
  ground (arith, hp x),
  Chain-frame m m' x xs b (λ p h. hn p (omega arith)) (λ p h. hp p (omega arith)) c.2,
)

-- A ring may be entered at any of its nodes.
pub Ring-rotate :
    (m : Links) (a : Ptr) (xs : List Ptr) (b : Ptr) (ys : List Ptr)
    → Ring m a (xs ++ b ∷ ys)
    → Ring m b (ys ++ a ∷ xs)
Ring-rotate m a xs b ys r =
    let parts = Chain-split m a xs b ys a r.chain in
    record {
      chain = Chain-join m b ys a xs b parts.1 parts.0;
      once = λ p. omega (arith, r.once p, count-append p xs (b ∷ ys), count-append p ys (a ∷ xs));
      real = omega (arith, r.real, count-append null xs (b ∷ ys), count-append null ys (a ∷ xs));
    }

-- Only nodes of `xs` have other links.
abbrev pub Spared : List Ptr → Links → Links → Type 0
Spared xs m m' = (p : Ptr) → count p xs ≡ 0 → (m'.next p ≡ m.next p) × (m'.prev p ≡ m.prev p)

-- Total correctness of a command: it meets no `NULL`, and ends in links with the property.
abbrev pub Ends : {A : Type 0} → Option (A × Links) → (A → Links → Type 0) → Type 0
Ends {A} r P = (a : A) × (m : Links) × (r ≡ some (a, m)) × P a m

-- The node before the end of a chain is on the chain.
pub last_mem :
    (m : Links) (a : Ptr) (xs : List Ptr) (b : Ptr) → Chain m a xs b → 1 ≤ count (m.prev b) (a ∷ xs)
last_mem m a [] b c = ground arith
last_mem m a (x ∷ xs) b c = ground (arith, last_mem m x xs b c.2)

-- A chain is led to another end by its last node's `next` and the new end's `prev`.
pub Chain-end :
    (m m' : Links) (a : Ptr) (xs : List Ptr) (b b' : Ptr)
    → ((p : Ptr) → count p (a ∷ xs) ≤ 1)
    → ((p : Ptr) → 1 ≤ count p (a ∷ xs) → p ≢ m.prev b → m'.next p ≡ m.next p)
    → ((p : Ptr) → 1 ≤ count p xs → m'.prev p ≡ m.prev p)
    → m'.next (m.prev b) ≡ b'
    → m'.prev b' ≡ m.prev b
    → Chain m a xs b
    → Chain m' a xs b'
Chain-end m m' a [] b b' once hn hp e f c = (rw (← c.1) e, rw (← c.1) f)
Chain-end m m' a (x ∷ xs) b b' once hn hp e f c = (
  ground (arith, hn a, once a, last_mem m x xs b c.2),
  ground (arith, hp x),
  Chain-end m m' x xs b b' (λ p. omega (arith, once p)) (λ p h. hn p (omega arith))
      (λ p h. hp p (omega arith)) e f c.2,
)

-- No node of a ring is `NULL`.
pub ne_null :
    (m : Links) (a : Ptr) (xs : List Ptr)
    → Ring m a xs
    → (p : Ptr) → 1 ≤ count p (a ∷ xs)
    → p ≢ null
ne_null m a xs r p h e = ground (arith, r.real)

pub next_mem :
    (m : Links) (a : Ptr) (xs : List Ptr) (b : Ptr) → Chain m a xs b → 1 ≤ count (m.next a) (b ∷ xs)
next_mem m a [] b c = ground arith
next_mem m a (x ∷ xs) b c = ground arith

-- A ring is kept by a command that spares its nodes.
pub Ring-Spared :
    (zs : List Ptr) (m m' : Links) (head : Ptr) (xs : List Ptr)
    → ((p : Ptr) → 1 ≤ count p (head ∷ xs) → count p zs ≡ 0)
    → Spared zs m m'
    → Ring m head xs
    → Ring m' head xs
Ring-Spared zs m m' head xs apart same r = record {
  chain =
      Chain-frame m m' head xs head (λ p h. (same p (apart p h)).0)
        (λ p h. (same p (apart p (ground arith))).1) r.chain;
  once = r.once;
  real = r.real;
}
