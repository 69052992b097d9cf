-- ===== src/Machine/Ports.antt =====
-- x86.h: the ports. What a device answers is a parameter, by the port and the number of bytes.
use rix_draft.Base.{ℕ, List, [], ◌∷◌, ◌++◌, u8, u16, u32}

-- A write to a port.
pub record Output : Type 0 where
  pub bytes : ℕ
  pub port : ℕ
  pub data_word : ℕ

-- The writes so far, and the devices, which answer by what was written to them.
pub record Ports : Type 0 where
  pub outputs : List Output
  pub answer : (outputs : List Output) (bytes port : ℕ) → ℕ

abbrev output : (bytes port data_word : ℕ) → Ports → Ports
output bytes port data_word p = record p {
  outputs = p.outputs ++ record { bytes = bytes; port = port; data_word = data_word } ∷ [];
}

unfoldable pub x86_outp8 : (port data_word : ℕ) → Ports → Ports
x86_outp8 port data_word = output 1 (u16 port) (u8 data_word)

unfoldable pub x86_outp16 : (port data_word : ℕ) → Ports → Ports
x86_outp16 port data_word = output 2 (u16 port) (u16 data_word)

unfoldable pub x86_outp32 : (port data_word : ℕ) → Ports → Ports
x86_outp32 port data_word = output 4 (u16 port) (u32 data_word)

unfoldable pub x86_inp8 : (port : ℕ) → Ports → ℕ
x86_inp8 port p = u8 (p.answer p.outputs 1 (u16 port))

unfoldable pub x86_inp16 : (port : ℕ) → Ports → ℕ
x86_inp16 port p = u16 (p.answer p.outputs 2 (u16 port))

unfoldable pub x86_inp32 : (port : ℕ) → Ports → ℕ
x86_inp32 port p = u32 (p.answer p.outputs 4 (u16 port))
