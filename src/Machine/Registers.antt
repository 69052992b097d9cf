-- ===== src/Machine/Registers.antt =====
-- x86.h: what is written to a model-specific register is read again.
use rix_draft.Base.{ℕ, ◌/◌, ◌^◌, ◌<◌, ◌≡◌, u32, ◌==◌, if◌then◌else◌, arith}
use rix_draft.Base.Bits.{bit_or_beside}
use rix_draft.Machine.{Machine, x86_read_msr, x86_write_msr}

-- `x86_read_msr` reads a 64-bit register whole.
pub x86_read_msr_lem :
    (msr_id : ℕ) (m : Machine) → m.msr msr_id < 2 ^ 64 → x86_read_msr msr_id m ≡ m.msr msr_id
unfolding x86_read_msr
x86_read_msr_lem msr_id m h =
    let value = m.msr msr_id in
    omega (arith, bit_or_beside 32 (u32 (value / 2 ^ 32)) (u32 value) (omega arith))

-- Reading a model-specific register gives the 64-bit value that was written last, by way of the two
-- halves, and the other registers keep theirs.
pub x86_read_msr-x86_write_msr :
    (msr_id value other : ℕ) (m : Machine)
    → value < 2 ^ 64
    → m.msr other < 2 ^ 64
    → x86_read_msr other (x86_write_msr msr_id value m)
      ≡ (if other == msr_id then value else m.msr other)
unfolding x86_write_msr
x86_read_msr-x86_write_msr msr_id value other m h k =
    ground (arith, x86_read_msr_lem other (x86_write_msr msr_id value m))
