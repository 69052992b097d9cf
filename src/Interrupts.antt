-- ===== src/Interrupts.antt =====
-- irq.c, interrupt.c, pic.c: the dispatch of interrupts. An ISR and its argument are addresses; a
-- handler's run is the list of its effects, in order. The handlers of irq.c itself are empty.
use rix_draft.Base.{
  ℕ, ◌<◌, ◌≤◌, ◌≡◌, ◌≢◌, ◌⊎◌, Bool, true, ◌&&◌, List, [], ◌∷◌, u32, ltb, leb, ◌==◌, if◌then◌else◌,
  arith,
}

-- `int_table_entry_t`; a callback 0 is `NULL`.
pub record Entry : Type 0 where
  pub callback : ℕ
  pub arg : ℕ
  pub allocated : Bool
  pub edge : Bool

abbrev pub Table : Type 0
Table = ℕ → Entry

-- What a handler does.
pub data Effect : Type 0 where
  div_by_zero page_fault : Effect
  call : (callback arg : ℕ) → Effect
  outp8 : (port value : ℕ) → Effect

unfoldable pub platform_int_handler : Table → ℕ → List Effect
platform_int_handler table frame_vector =
    let handler = table (u32 frame_vector) in
    if handler.callback == 0 then [] else call handler.callback handler.arg ∷ []

unfoldable pub int_handler : Table → ℕ → List Effect
int_handler table frame_vector =
    let vector = u32 frame_vector in
    if vector == 0x0
    then div_by_zero ∷ []
    else if vector == 0xe
    then page_fault ∷ []
    else if leb 0x20 vector && leb vector 0xff
    then platform_int_handler table frame_vector
    else []

-- The argument of the entry is not set.
unfoldable pub register_isr : (vector callback : ℕ) → Bool → Table → Table
register_isr vector callback edge table v =
    if v == vector
    then record { callback = callback; arg = (table v).arg; allocated = true; edge = edge }
    else table v

-- `pic_send_eoi`
unfoldable pub pic_send_eoi : ℕ → List Effect
pic_send_eoi irq = outp8 0x20 0x20 ∷ (if ltb 8 irq then outp8 0xa0 0x20 ∷ [] else [])

-- Empty bodies: nothing is told to the devices.
unfoldable pub pic_remap : (offset1 offset2 : ℕ) → List Effect
pic_remap offset1 offset2 = []

abbrev pub pic_init : List Effect
pic_init = []

unfoldable pub platform_init_interrupts : Table → Table × List Effect
platform_init_interrupts table = (table, [])

-- An interrupt runs the routine that was registered for its vector, with the argument that the
-- entry held, when the vector is one of those that irq.c passes on; the routines of other vectors
-- stay what they were.
pub int_handler-register_isr :
    (vector callback other : ℕ) (edge : Bool) (table : Table)
    → callback ≢ 0
    → other < 256
    → vector < 256
    → int_handler (register_isr vector callback edge table) other ≡ (
        if (other == vector) && leb 0x20 vector
        then call callback (table vector).arg ∷ []
        else int_handler table other)
unfolding int_handler platform_int_handler register_isr
int_handler-register_isr vector callback other edge table h o v = ground arith

-- The table is read below 256 only: entries behind it do not matter to any interrupt.
pub int_handler-in_table :
    (table table' : Table) (frame_vector : ℕ)
    → ((v : ℕ) → v < 256 → table v ≡ table' v)
    → int_handler table frame_vector ≡ int_handler table' frame_vector
unfolding int_handler platform_int_handler
int_handler-in_table table table' frame_vector same = ground (arith, same (u32 frame_vector))

-- The end of an interrupt is told to the first PIC always, and to the second one for the lines from
-- 9 on; line 8, the first of the second PIC, is not among them.
pub pic_send_eoi_lem :
    (irq : ℕ)
    → ((irq ≤ 8) × (pic_send_eoi irq ≡ outp8 0x20 0x20 ∷ []))
      ⊎ ((9 ≤ irq) × (pic_send_eoi irq ≡ outp8 0x20 0x20 ∷ outp8 0xa0 0x20 ∷ []))
unfolding pic_send_eoi
pic_send_eoi_lem irq = ground arith
