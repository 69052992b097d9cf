-- ===== src/Console/Cursor.antt =====
-- console.c: where the cursor goes, and which cells are written.
use rix_draft.Base.{
  ℕ, ◌+◌, ◌*◌, ◌<◌, ◌≤◌, ◌≡◌, refl, ◌∙◌, ◌≢◌, ◌⊎◌, inl, List, [], ◌∷◌, arith, length,
}
use rix_draft.Console.{Screen, cell, put_char, put_str}

-- A column of the screen, and a row that does not wrap by the next line feed.
pub record IsOn (s : Screen) (row : ℕ) : Type 0 where
  pub column : s.cur_x < 80
  pub line : s.cur_y ≤ row

-- No character but a backspace in the first column takes the cursor off the columns, and a
-- character moves it down by one row at most.
pub put_char-IsOn :
    (c fg bg : ℕ) (s : Screen) (row : ℕ)
    → IsOn s row
    → row < 255
    → (c ≢ 0x08) ⊎ (0 < s.cur_x)
    → IsOn (put_char c fg bg s) (row + 1)
unfolding put_char
put_char-IsOn c fg bg s row on low back = ground arith

-- A character changes the cell under the cursor at most, and that only if it is neither a tab, nor a
-- carriage return, nor a line feed.
pub put_char-cells :
    (c fg bg : ℕ) (s : Screen) (i : ℕ)
    → (i ≢ cell s) ⊎ ((c ≡ 0x09) ⊎ ((c ≡ 0x0d) ⊎ (c ≡ 0x0a)))
    → (put_char c fg bg s).video i ≡ s.video i
unfolding put_char
put_char-cells c fg bg s i other = ground arith

abbrev pub NoBackspace : List ℕ → Type 0
NoBackspace [] = Unit {0}
NoBackspace (c ∷ str) = (c ≢ 0x08) × NoBackspace str

-- A text without backspaces that has room for a line feed with each of its characters keeps the
-- cursor on the columns, and changes no cell from the row on that it may reach at most.
pub put_str-cells :
    (str : List ℕ) (fg bg : ℕ) (s : Screen) (row : ℕ)
    → IsOn s row
    → row + length str ≤ 255
    → NoBackspace str
    → IsOn (put_str str fg bg s) (row + length str)
      × ((i : ℕ) → (row + length str) * 80 ≤ i → (put_str str fg bg s).video i ≡ s.video i)
unfolding put_str
put_str-cells [] fg bg s row on room plain =
    (record { column = on.column; line = omega arith }, λ i h. refl)
put_str-cells (c ∷ str) fg bg s row on room plain =
    let on1 = put_char-IsOn c fg bg s row on (omega arith) (inl plain.0) in
    let rest = put_str-cells str fg bg (put_char c fg bg s) (row + 1) on1 (omega arith) plain.1 in
    (
      record { column = rest.0.column; line = omega (arith, rest.0.line) },
      λ i h.
          rest.1 i (omega arith)
          ∙ put_char-cells c fg bg s i (inl (λ e. omega (arith, on.column, on.line))),
    )
