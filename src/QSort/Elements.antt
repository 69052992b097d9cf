-- ===== src/QSort/Elements.antt =====
-- qsort.c: the exchange of two elements in memory is the exchange in the array of elements.
use native.Mathlib.Nat.{mul_comm, mul_assoc, mul-le-mul_right, suc-mul}
use rix_draft.Base.{
  ℕ, suc, ◌+◌, ◌*◌, ◌/◌, ◌%◌, ◌≤◌, ◌<◌, ◌≡◌, ◌⊎◌, inl, inr, ◌↔◌, bit_or, ◌==◌, some, false,
  Bool-cases, arith, ap, ◌∙◌, sym, ==_iff,
}
use rix_draft.Base.Bits.{bit_or_step}
use rix_draft.QSort.{swap}
use rix_draft.QSort.Bytes.{swap_type, swapfunc, swapfunc-Exchanged, SameOrApart}

-- The elements of an array in memory, each the sequence of its bytes.
abbrev pub element : (arr es : ℕ) → (ℕ → ℕ) → ℕ → ℕ → ℕ
element arr es m i k = m (arr + i * es + k)

-- Places of elements lie in their order, each behind the whole of the one before.
next_element : (i j es : ℕ) → i < j → i * es + es ≤ j * es
next_element i j es h =
    omega (arith, suc-mul i es, mul-le-mul_right {m = suc i} {n = j} es (omega arith))

low_bits : (x y : ℕ) → (bit_or x y % 8 ≡ 0) ↔ ((x % 8 ≡ 0) × (y % 8 ≡ 0))
low_bits x y =
    ground
      (arith, bit_or_step x y, bit_or_step (x / 2) (y / 2), bit_or_step (x / 2 / 2) (y / 2 / 2))

swap_type_words : (address es : ℕ) → swap_type address es ≤ 1 → es % 8 ≡ 0
unfolding swap_type
swap_type_words address es h = ground (arith, low_bits address es)

-- Every element of an array gets the same `swaptype` as the array.
pub swap_type-element : (arr es i : ℕ) → swap_type (arr + i * es) es ≡ swap_type arr es
unfolding swap_type
swap_type-element arr es i =
    let parts : i * (8 * (es / 8)) ≡ 8 * (i * (es / 8)) =
      sym (mul_assoc i 8 (es / 8))
      ∙ ap (λ (t : ℕ). t * (es / 8)) (mul_comm i 8)
      ∙ mul_assoc 8 i (es / 8) in
    elim (Bool-cases (es % 8 == 0)) [
      | inl whole ↦
          let es_eq : es ≡ 8 * (es / 8) = ground (arith, whole) in
          let even : i * es % 8 ≡ 0 = ground (arith, parts, ap (λ (t : ℕ). i * t) es_eq) in
          ground (arith, low_bits arr es, low_bits (arr + i * es) es)
      | inr odd ↦ ground (arith, low_bits arr es, low_bits (arr + i * es) es)
    ]

places : (arr es i j : ℕ) → SameOrApart (arr + i * es) (arr + j * es) es
places arr es i j = elim (order i j) [
  | inl e ↦ inl (ap (λ (t : ℕ). arr + t * es) e)
  | inr (inl lt) ↦ inr (inl (omega (arith, next_element i j es lt)))
  | inr (inr gt) ↦ inr (inr (omega (arith, next_element j i es gt)))
]
  where
    order : (i j : ℕ) → (i ≡ j) ⊎ ((i < j) ⊎ (j < i))
    order i j = ground arith

-- A byte of another element lies outside an element.
outside :
    (arr es q i k : ℕ)
    → (q == i) ≡ false
    → k < es
    → (arr + q * es + k < arr + i * es) ⊎ (arr + i * es + es ≤ arr + q * es + k)
outside arr es q i k ne h = ground (arith, next_element q i es, next_element i q es)

-- `swapfunc`, with the `swaptype` of the array, ends and exchanges two elements: the elements of the
-- memory behind it are those of the abstract exchange.
pub swapfunc-swap :
    (arr es i j : ℕ) (m : ℕ → ℕ)
    → (m' : ℕ → ℕ) × (swapfunc (arr + i * es) (arr + j * es) es (swap_type arr es) m ≡ some m')
      × ((q k : ℕ) → k < es → element arr es m' q k ≡ swap (element arr es m) i j q k)
swapfunc-swap arr es i j m =
    let (m', e, x) =
      swapfunc-Exchanged (arr + i * es) (arr + j * es) es (swap_type arr es) m (places arr es i j)
        (swap_type_words arr es) in
    (
      m',
      e,
      λ q k h. elim (Bool-cases (q == i)) [
        | inl first ↦ rw (first, (==_iff q i).0 first) (x.at_first k h)
        | inr other ↦ elim (Bool-cases (q == j)) [
          | inl second ↦ rw (other, second, (==_iff q j).0 second) (x.at_second k h)
          | inr neither ↦
              rw (other, neither)
                (x.elsewhere (arr + q * es + k) (outside arr es q i k other h)
                  (outside arr es q j k neither h))
        ]
      ],
    )
