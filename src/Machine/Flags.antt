-- ===== src/Machine/Flags.antt =====
-- x86.h: the flags register, of which bit 9 says whether interrupts are let in, and a processor that
-- waits for one.
use rix_draft.Base.{
  ℕ, ◌-◌, ◌/◌, ◌%◌, ◌^◌, ◌≡◌, refl, Bool, true, false, bit_and, bit_or, ◌==◌, arith,
}
use rix_draft.Base.Bits.{bit_or_at, bit_and_high, bit_and_mask}

pub record Processor : Type 0 where
  pub flags : ℕ
  pub halted : Bool

-- The bit IF.
abbrev pub interrupt_flag : ℕ
interrupt_flag = 0x200

unfoldable pub x86_hlt : Processor → Processor
x86_hlt p = record p { halted = true }

unfoldable pub x86_sti : Processor → Processor
x86_sti p = record p { flags = bit_or p.flags interrupt_flag }

-- The bit is taken away where it is set.
unfoldable pub x86_cli : Processor → Processor
x86_cli p = record p { flags = p.flags - bit_and p.flags interrupt_flag }

-- `pushf` and `pop`
unfoldable pub x86_save_flags : Processor → ℕ
x86_save_flags p = p.flags

-- `push` and `popf`
unfoldable pub x86_restore_flags : (flags : ℕ) → Processor → Processor
x86_restore_flags flags p = record p { flags = flags }

abbrev pub lets_in : Processor → Bool
lets_in p = p.flags / 2 ^ 9 % 2 == 1

-- `x86_sti` lets interrupts in and `x86_cli` keeps them out; restoring the flags that were saved before either
-- lets them in exactly if they were let in then.
pub x86_restore_flags-x86_save_flags :
    (p : Processor)
    → (lets_in (x86_sti p) ≡ true)
      × (lets_in (x86_cli p) ≡ false)
      × (x86_restore_flags (x86_save_flags p) (x86_cli p) ≡ p)
      × (x86_restore_flags (x86_save_flags p) (x86_sti p) ≡ p)
unfolding x86_sti x86_cli x86_restore_flags x86_save_flags
x86_restore_flags-x86_save_flags p =
    let set = bit_or_at 9 p.flags interrupt_flag in
    let high = bit_and_high 9 p.flags 1 in
    let low = bit_and_mask 1 (p.flags / 512) in
    (ground (arith, set), ground (arith, high, low), refl, refl)
