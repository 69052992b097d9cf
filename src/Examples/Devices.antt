-- ===== src/Examples/Devices.antt =====
-- irq.c, pic.c, mmu.c: the theorems about the devices and the page tables at concrete states.
use rix_draft.Base.{
  ◌/◌, ◌%◌, ◌^◌, ◌≡◌, ◌⊎◌, ◌↔◌, ◌&&◌, true, false, leb, [], ◌∷◌, ◌==◌, if◌then◌else◌, arith,
}
use rix_draft.Machine.{Machine}
use rix_draft.Mmu.Setup.{
  Setup, x86_check_smep_availability, x86_check_smap_availability, x86_mmu_init, x86_mmu_init_lem,
}
use rix_draft.Interrupts.{Table, call, int_handler, register_isr, int_handler-register_isr}
use rix_draft.Mmu.{Words, no_error, entry_not_present, frame, get_mapping}
use rix_draft.Mmu.Walk.{walked, get_mapping_iff}

abbrev table : Table
table = λ v. record { callback = 0; arg = v; allocated = false; edge = false }

int_handler_example :
    int_handler (register_isr 0x21 0x9000 false table) 0x21
    ≡ (if (0x21 == 0x21) && leb 0x20 0x21 then call 0x9000 0x21 ∷ [] else int_handler table 0x21)
int_handler_example =
    int_handler-register_isr 0x21 0x9000 0x21 false table (omega arith) (omega arith) (omega arith)

-- Tables in which every word has the bits 0 and 1.
abbrev mem : Words
mem = λ a. 0x3

get_mapping_example :
    (((get_mapping mem 0x4567 0x8000).status ≡ no_error) ↔ (walked mem 0x4567 0x8000 ≡ true))
    × (((get_mapping mem 0x4567 0x8000).level ≡ frame)
        ↔ ((get_mapping mem 0x4567 0x8000).status ≡ no_error))
    × (((get_mapping mem 0x4567 0x8000).status ≡ no_error)
        ⊎ ((get_mapping mem 0x4567 0x8000).status ≡ entry_not_present))
get_mapping_example = get_mapping_iff mem 0x4567 0x8000

-- The processor answers with 39 and 48 bits for the addresses, and with all features.
abbrev machine : Machine
machine = record {
  cr0 = 0x8000_0011;
  cr2 = 0;
  cr3 = 0x1000;
  cr4 = 0x20;
  msr = λ id. 0x500;
  fs = λ a. 0;
  gs = λ a. 0;
  answer = λ leaf csel. record { eax = 0x3027; ebx = 0xffff_ffff; ecx = 0; edx = 0 };
}

abbrev setup : Setup
setup = record { machine = machine; paddr_width = 32; vaddr_width = 48 }

x86_mmu_init_example :
    ((x86_mmu_init setup).machine.cr0 / 2 ^ 16 % 2
      ≡ (if 16 == 16 then 1 else machine.cr0 / 2 ^ 16 % 2))
    × ((x86_mmu_init setup).machine.cr4 / 2 ^ 16 % 2 ≡ (
        if x86_check_smep_availability machine && (16 == 21)
        then 1
        else if x86_check_smap_availability machine && (16 == 22)
        then 1
        else machine.cr4 / 2 ^ 16 % 2))
    × ((x86_mmu_init setup).paddr_width ≡ 0x3027 % 256)
    × ((x86_mmu_init setup).vaddr_width ≡ 0x3027 / 256 % 256)
x86_mmu_init_example = x86_mmu_init_lem setup 16
