-- ===== src/Examples/Printing.antt =====
-- printf.c, console.c: the theorems about printing at concrete formats, buffers and screens.
use rix_draft.Base.{ℕ, refl, ◌+◌, ◌*◌, ◌≤◌, ◌<◌, ◌≡◌, List, [], ◌∷◌, some, arith, get_elem?, min}
use rix_draft.Printf.Reader.{num}
use rix_draft.Printf.Calls.{snprintf, HoldsText, snprintf-plain}
use rix_draft.Printf.Buffer.{fill_buffer, fill_buffer_lem}
use rix_draft.Console.{Screen, put_str, welcome_text, platform_init_console}
use rix_draft.Console.Text.{build_line, shown_at, platform_init_console_lem}
use rix_draft.Console.Cursor.{IsOn, put_str-cells}

snprintf_plain_example :
    (buffer : ℕ → ℕ) × (snprintf (λ i. 0xff) 2 (b'h' ∷ b'i' ∷ 0 ∷ []) (num 3 ∷ []) 7
      ≡ some (2, buffer))
    × HoldsText (b'h' ∷ b'i' ∷ []) 2 (λ i. 0xff) buffer
snprintf_plain_example =
    snprintf-plain (λ i. 0xff) 2 (b'h' ∷ b'i' ∷ []) (num 3 ∷ []) 7
      ((λ e. ground arith), (λ e. ground arith), ((λ e. ground arith), (λ e. ground arith), tt))
      (omega arith) (omega arith) (omega arith)

-- Five bytes into a buffer of four.
abbrev bytes : List ℕ
bytes = b'h' ∷ b'e' ∷ b'l' ∷ b'l' ∷ b'o' ∷ []

fill_buffer_example :
    (fill_buffer 4 bytes (λ i. 0xff) (min 5 3) ≡ 0)
    × ((i c : ℕ) → get_elem? bytes i ≡ some c → i < 3 → fill_buffer 4 bytes (λ i. 0xff) i ≡ c)
    × ((j : ℕ) → min 5 3 < j → fill_buffer 4 bytes (λ i. 0xff) j ≡ 0xff)
fill_buffer_example = fill_buffer_lem 4 bytes (λ i. 0xff) (omega arith) (omega arith)

abbrev screen : Screen
screen = record { cur_x = 79; cur_y = 3; video = λ i. 0 }

put_str_example :
    IsOn (put_str (0x41 ∷ 0x42 ∷ []) 0xf 0 screen) (3 + 2)
    × ((i : ℕ) → (3 + 2) * 80 ≤ i → (put_str (0x41 ∷ 0x42 ∷ []) 0xf 0 screen).video i ≡ 0)
put_str_example =
    put_str-cells (0x41 ∷ 0x42 ∷ []) 0xf 0 screen 3
      (record { column = omega arith; line = omega arith }) (omega arith)
      ((λ e. ground arith), ((λ e. ground arith), tt))

-- The third row of a screen of blanks.
abbrev blank_screen : Screen
blank_screen = record { cur_x = 0; cur_y = 2; video = λ i. 0x0720 }

platform_init_console_example :
    ((platform_init_console blank_screen).cur_x ≡ 22)
    × ((platform_init_console blank_screen).cur_y ≡ 3)
    × ((i : ℕ)
        → (platform_init_console blank_screen).video i
          ≡ shown_at welcome_text 0x0f 240 i (shown_at build_line 0x0f 160 i 0x0720))
platform_init_console_example = platform_init_console_lem blank_screen refl (omega arith)
