-- ===== src/QSort/Order.antt =====
-- qsort.c: what the sort relies on of its comparison, and what it is for an array to be in order.
use rix_draft.Base.{ℕ, ◌≤◌, ◌<◌, ◌≡◌, refl, ◌≢◌, ◌⊎◌, inl, inr, arith}
use rix_draft.QSort.{Sign, less, equal, greater}

abbrev pub flip : Sign → Sign
flip less = greater
flip equal = equal
flip greater = less

-- What sorting by a comparison relies on.
pub record IsComparison {ℓ} {A : Type ℓ} (cmp : A → A → Sign) : Type ℓ where
  pub flips : (a b : A) → cmp b a ≡ flip (cmp a b)
  pub trans : (a b c : A) → cmp a b ≢ greater → cmp b c ≢ greater → cmp a c ≢ greater

pub Sign-cases : (s : Sign) → (s ≡ less) ⊎ ((s ≡ equal) ⊎ (s ≡ greater))
Sign-cases less = inl refl
Sign-cases equal = inr (inl refl)
Sign-cases greater = inr (inr refl)

module _ {A : Type 0} (cmp : A → A → Sign) where
  -- The places from `lo` up to `hi`, exclusive, are in order.
  abbrev pub SortedOn : ℕ → ℕ → (ℕ → A) → Type 0
  SortedOn lo hi a = (i j : ℕ) → lo ≤ i → i < j → j < hi → cmp (a i) (a j) ≢ greater

  module _ (o : IsComparison cmp) where
    pub equal_refl : (x : A) → cmp x x ≡ equal
    equal_refl x = elim (Sign-cases (cmp x x)) [
      | inl e ↦ ground (arith, o.flips x x)
      | inr (inl e) ↦ e
      | inr (inr e) ↦ ground (arith, o.flips x x)
    ]

    pub flip_greater : (x y : A) → cmp x y ≡ greater → cmp y x ≢ greater
    flip_greater x y e = ground (arith, o.flips x y)

    -- Elements on the two sides of a third are in order.
    pub around : (x v y : A) → cmp x v ≢ greater → cmp y v ≢ less → cmp x y ≢ greater
    around x v y h k = elim (Sign-cases (cmp y v)) [
      | inl e ↦ absurd (k e)
      | inr (inl e) ↦ o.trans x v y h (ground (arith, o.flips y v))
      | inr (inr e) ↦ o.trans x v y h (ground (arith, o.flips y v))
    ]
