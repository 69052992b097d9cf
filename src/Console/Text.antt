-- ===== src/Console/Text.antt =====
-- console.c: what a text looks like on the screen, and the greeting.
use rix_draft.Base.{
  ℕ, ◌+◌, ◌*◌, ◌<◌, ◌≡◌, refl, ◌∙◌, ◌≢◌, List, [], ◌∷◌, bit_and, bit_or, u8, ◌<<<◌, ◌==◌,
  if◌then◌else◌, arith, length, ap, Bool, true, false, not, ◌&&◌, ◌++◌, Bool-cases, inl, inr,
}
use rix_draft.Console.{
  Screen, cell, put_char, put_str, build_text, welcome_text, platform_init_console,
}

-- The characters that are shown.
abbrev pub Shown : List ℕ → Type 0
Shown [] = Unit {0}
Shown (c ∷ str) = (c ≢ 0x08) × (c ≢ 0x09) × (c ≢ 0x0a) × (c ≢ 0x0d) × Shown str

-- The cell `i`, once a text is shown from the cell `start` on; it was `old`.
abbrev pub shown_at : List ℕ → (attrib start i old : ℕ) → ℕ
shown_at [] attrib start i old = old
shown_at (c ∷ str) attrib start i old =
    let rest = shown_at str attrib (start + 1) i old in
    if i == start then bit_or c (attrib <<< 8) else rest

abbrev pub attribute : (fg bg : ℕ) → ℕ
attribute fg bg = u8 (bit_or (bg <<< 4) (bit_and fg 0xf))

shown_at-before :
    (str : List ℕ) (attrib start i old : ℕ) → i < start → shown_at str attrib start i old ≡ old
shown_at-before [] attrib start i old h = refl
shown_at-before (c ∷ str) attrib start i old h =
    ground (arith, shown_at-before str attrib (start + 1) i old)

put_char-Shown :
    (c fg bg : ℕ) (s : Screen)
    → Shown (c ∷ [])
    → s.cur_x + 1 < 80
    → put_char c fg bg s ≡ record {
      cur_x = s.cur_x + 1;
      cur_y = s.cur_y;
      video = λ i. if i == cell s then bit_or c (attribute fg bg <<< 8) else s.video i;
    }
unfolding put_char
put_char-Shown c fg bg s h room =
    let tab : (c == 0x09) ≡ false = ground (arith, h) in
    let ret : (c == 0x0d) ≡ false = ground (arith, h) in
    let line : (c == 0x0a) ≡ false = ground (arith, h) in
    let back : (c == 0x08) ≡ false = ground (arith, h) in
    let x : u8 (s.cur_x + 1) ≡ s.cur_x + 1 = omega arith in
    let wrap : (s.cur_x + 1 == 80) ≡ false = ground arith in rw (tab, ret, line, back, x, wrap) refl

shown_at-put :
    (str : List ℕ) (attrib x y i v old : ℕ)
    → shown_at str attrib (y * 80 + (x + 1)) i (if i == y * 80 + x then v else old)
      ≡ (if i == y * 80 + x then v else shown_at str attrib (y * 80 + x + 1) i old)
shown_at-put str attrib x y i v old =
    let next : y * 80 + (x + 1) ≡ y * 80 + x + 1 = omega arith in
    elim (Bool-cases (i == y * 80 + x)) [
      | inl e ↦ rw (e, shown_at-before str attrib (y * 80 + (x + 1)) i v (ground arith)) refl
      | inr e ↦ rw (e, next) refl
    ]

-- A text of shown characters that fits the row stands from the cursor on, with the attribute of its
-- colours in every cell. No other cell changes, and the cursor moves behind it.
pub put_str-Shown :
    (str : List ℕ) (fg bg : ℕ) (s : Screen)
    → Shown str
    → s.cur_x + length str < 80
    → ((put_str str fg bg s).cur_x ≡ s.cur_x + length str)
      × ((put_str str fg bg s).cur_y ≡ s.cur_y)
      × ((i : ℕ)
          → (put_str str fg bg s).video i ≡ shown_at str (attribute fg bg) (cell s) i (s.video i))
unfolding put_str
put_str-Shown [] fg bg s h room = (omega arith, refl, λ i. refl)
put_str-Shown (c ∷ str) fg bg s h room =
    let here = put_char-Shown c fg bg s (h.0, h.1, h.2, h.3, tt) (omega arith) in
    let next : Screen = record {
      cur_x = s.cur_x + 1;
      cur_y = s.cur_y;
      video = λ i. if i == cell s then bit_or c (attribute fg bg <<< 8) else s.video i;
    } in
    let rest = put_str-Shown str fg bg next h.4 (omega arith) in
    rw (put_str, here)
      (
        omega (arith, rest.0),
        rest.1,
        λ i. rest.2 i ∙ shown_at-put str (attribute fg bg) s.cur_x s.cur_y i _ (s.video i),
      )

abbrev is_shown : ℕ → Bool
is_shown c = not (c == 0x08) && not (c == 0x09) && not (c == 0x0a) && not (c == 0x0d)

abbrev all_shown : List ℕ → Bool
all_shown [] = true
all_shown (c ∷ str) = is_shown c && all_shown str

Shown-all_shown : (str : List ℕ) → all_shown str ≡ true → Shown str
Shown-all_shown [] e = tt
Shown-all_shown (c ∷ str) e = elim (Bool-cases (is_shown c)) [
  | inl k ↦
      let rest : all_shown str ≡ true = ground (arith, k, e) in
      (ground arith, ground arith, ground arith, ground arith, Shown-all_shown str rest)
  | inr k ↦ ground (arith, k, e)
]

put_str-append :
    (a b : List ℕ) (fg bg : ℕ) (s : Screen)
    → put_str (a ++ b) fg bg s ≡ put_str b fg bg (put_str a fg bg s)
unfolding put_str
put_str-append [] b fg bg s = refl
put_str-append (c ∷ a) b fg bg s = put_str-append a b fg bg (put_char c fg bg s)

-- "Rix (build 0.0.1)"
abbrev pub build_line : List ℕ
build_line =
    82 ∷ 105 ∷ 120 ∷ 32 ∷ 40 ∷ 98 ∷ 117 ∷ 105 ∷ 108 ∷ 100 ∷ 32 ∷ 48 ∷ 46 ∷ 48 ∷ 46 ∷ 49 ∷ 41 ∷ []

new_line :
    (fg bg : ℕ) (s : Screen)
    → put_str (0x0a ∷ 0x0d ∷ []) fg bg s
      ≡ record { cur_x = 0; cur_y = u8 (s.cur_y + 1); video = s.video }
unfolding put_str put_char
new_line fg bg s = refl

-- From the left end of a row that is not the last, the greeting stands on two rows, the version on the
-- first and the welcome on the second, white on black. No other cell changes, and the cursor stays
-- behind the text.
pub platform_init_console_lem :
    (s : Screen)
    → s.cur_x ≡ 0
    → s.cur_y < 255
    → ((platform_init_console s).cur_x ≡ 22)
      × ((platform_init_console s).cur_y ≡ s.cur_y + 1)
      × ((i : ℕ)
          → (platform_init_console s).video i
            ≡ shown_at welcome_text 0x0f
                ((s.cur_y + 1) * 80)
                i
                (shown_at build_line 0x0f (s.cur_y * 80) i (s.video i)))
unfolding platform_init_console
platform_init_console_lem s left low =
    let t = put_str build_line 0xf 0x0 s in
    let first =
      put_str-Shown build_line 0xf 0x0 s (Shown-all_shown build_line refl) (omega (arith, left)) in
    let t1 : Screen = record { cur_x = 0; cur_y = u8 (t.cur_y + 1); video = t.video } in
    let built : put_str build_text 0xf 0x0 s ≡ t1 =
      put_str-append build_line (0x0a ∷ 0x0d ∷ []) 0xf 0x0 s ∙ new_line 0xf 0x0 t in
    let second =
      put_str-Shown welcome_text 0xf 0x0 t1 (Shown-all_shown welcome_text refl) (omega arith) in
    let row : u8 (t.cur_y + 1) ≡ s.cur_y + 1 = omega (arith, first.1) in
    let start : cell s ≡ s.cur_y * 80 = omega (arith, left) in
    let start1 : cell t1 ≡ (s.cur_y + 1) * 80 = omega (arith, row) in
    let whole : platform_init_console s ≡ put_str welcome_text 0xf 0x0 t1 =
      ap (put_str welcome_text 0xf 0x0) built in
    (
      ap (λ (w : Screen). w.cur_x) whole ∙ second.0,
      ap (λ (w : Screen). w.cur_y) whole ∙ second.1 ∙ row,
      λ i.
          let line = first.2 i ∙ ap (λ p. shown_at build_line 0x0f p i (s.video i)) start in
          ap (λ (w : Screen). w.video i) whole
          ∙ second.2 i
          ∙ (λ j. shown_at welcome_text 0x0f (start1 j) i (line j)),
    )
