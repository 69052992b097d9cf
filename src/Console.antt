-- ===== src/Console.antt =====
-- console.c: the text console. The frame buffer is a memory of 16-bit cells, by the index from its
-- base; `cur_x` and `cur_y` are bytes. `x` and `y` of `put_char` are not used by the code.
pub mod Cursor
pub mod Text
use rix_draft.Base.{
  ℕ, zero, suc, ◌+◌, ◌-◌, ◌*◌, Bool, true, false, List, [], ◌∷◌, bit_and, bit_or, u8, ◌<<<◌, leb,
  ◌==◌, if◌then◌else◌,
}

pub record Screen : Type 0 where
  pub cur_x : ℕ
  pub cur_y : ℕ
  pub video : ℕ → ℕ

-- Where the next character goes.
abbrev pub cell : Screen → ℕ
cell s = s.cur_y * 80 + s.cur_x

abbrev pub write_cell : (ℕ → ℕ) → ℕ → ℕ → ℕ → ℕ
write_cell video i v j = if j == i then v else video j

unfoldable pub put_char : (c fg bg : ℕ) → Screen → Screen
put_char c fg bg s =
    let attrib = u8 (bit_or (bg <<< 4) (bit_and fg 0xf)) in
    if c == 0x09
    then (let x = u8 (s.cur_x + 4) in
        if leb 80 x
        then record s { cur_x = 0; cur_y = u8 (s.cur_y + 1) }
        else record s { cur_x = x })
    else if c == 0x0d
    then record s { cur_x = 0 }
    else if c == 0x0a
    then record s { cur_y = u8 (s.cur_y + 1) }
    else if c == 0x08
    then record s { cur_x = u8 (s.cur_x + 255); video = write_cell s.video (cell s) b' ' }
    else (let shown = write_cell s.video (cell s) (bit_or c (attrib <<< 8)) in
        if u8 (s.cur_x + 1) == 80
        then record { cur_x = 0; cur_y = u8 (s.cur_y + 1); video = shown }
        else record { cur_x = u8 (s.cur_x + 1); cur_y = s.cur_y; video = shown })

-- A text is given without its NUL.
unfoldable pub put_str : List ℕ → (fg bg : ℕ) → Screen → Screen
unfolding put_char
put_str [] fg bg s = s
put_str (c ∷ str) fg bg s = put_str str fg bg (put_char c fg bg s)

-- "Rix (build 0.0.1)\n\r"
abbrev pub build_text : List ℕ
build_text =
    82 ∷ 105 ∷ 120 ∷ 32 ∷ 40 ∷ 98 ∷ 117 ∷ 105 ∷ 108 ∷ 100 ∷ 32 ∷ 48 ∷ 46 ∷ 48 ∷ 46 ∷ 49 ∷ 41 ∷ 10
    ∷ 13 ∷ []

-- "Welcome to Rix kernel!"
abbrev pub welcome_text : List ℕ
welcome_text =
    87 ∷ 101 ∷ 108 ∷ 99 ∷ 111 ∷ 109 ∷ 101 ∷ 32 ∷ 116 ∷ 111 ∷ 32 ∷ 82 ∷ 105 ∷ 120 ∷ 32 ∷ 107 ∷ 101
    ∷ 114 ∷ 110 ∷ 101 ∷ 108 ∷ 33 ∷ []

unfoldable pub platform_init_console : Screen → Screen
unfolding put_str
platform_init_console s = put_str welcome_text 0xf 0x0 (put_str build_text 0xf 0x0 s)
