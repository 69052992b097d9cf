-- ===== src/Lib.antt =====
-- Verification of the kernel's core in C: lists, memory management, printing, boot and devices.
--
-- The program is a small kernel for x86_64. At boot, platform.c reads the memory map of the boot
-- loader and makes zones of it; pmm.c keeps the free pages of each zone on lists of list.h, in
-- arrays of page structures that balloc.c hands out; vm.c marks the pages that the kernel image
-- takes, by way of the page tables of mmu.c; kheap.c makes a heap of a page. init.c runs hooks
-- stage by stage, irq.c and interrupt.c dispatch interrupts, printf.c and console.c print.
--
-- The files, each with the code that it models:
--   Base: words with their wrap-around, tests, lists and bits, shared by all files.
--   Align: stdlib.h, ROUND_UP, ROUND_DOWN and IS_ALIGNED.
--   Balloc: balloc.c, the two globals and balloc.
--   LinkedList: list.h, each function under its own name as a command on a memory of links, where
--     reading or writing through NULL is a fault. LinkedList/Ring says what a ring of
--     nodes is, and LinkedList/Entry has the macros for the structures that nodes are in.
--   Vmm, Threads and Processor/Bootstrap: vmm.c, thread.c, cpu_data.c and processor.c at boot, over
--     these links.
--   Pmm: pmm.c and pmm.h, with Pmm/Release for freeing and for the conversions of addresses,
--     Pmm/Range for pmm_alloc_range, Pmm/Below for what the memset of pmm_add_zone leaves alone,
--     and Pmm/Kernel for pmm_alloc_kpages and pgalloc.c. A list of
--     pages is a sequence here, as the rings of LinkedList are read.
--   Pmm/Linked: pmm_add_zone, the allocations and the freeing of pmm.c once more, in a memory where
--     zones and pages are structures at addresses and each list is what its links say. Pmm/Linked/Rep
--     has the relation between such a memory and the sequences of Pmm.
--   Printf: printf.c, with Printf/Reader for a directive up to its letter, Printf/Convert for the
--     switch over the letter, Printf/Buffer for the callback of vsnprintf, and Printf/Calls for
--     vsnprintf, vsprintf, snprintf and sprintf.
--   CString: string.c, memset and memcpy on a memory of bytes, and the three stubs. CString/Fill has
--     the number of bytes that memset writes, which pmm_add_zone uses.
--   Interrupts: irq.c, interrupt.c and pic.c; a handler's run is the list of its effects.
--   QSort: qsort.c over an array of elements; the places are numbers, and pc and pd stand one place
--     further than in the code. QSort/Bytes has the swaps as they work on bytes, and QSort/Elements
--     relates the two.
--   Init: init.c and init.h, hook_cmp, init_hooks_init and kernel_init_upto.
--   Console: console.c, put_char, put_str and platform_init_console.
--   Kprint: kernel/console/kprint.c, register_console and unregister_console, with the calls through
--     the pointers of a console as effects.
--   Mmu: mmu.c, mmu.h and ptable.h, the tests of addresses and the walk of the page tables, with
--     Mmu/Setup for x86_mmu_init.
--   Machine: x86.h, the registers as a state, with Machine/Flags for the flags and Machine/Ports for
--     the ports.
--   Spinlock: spinlock.h, the four functions on the lock word.
--   Heap: kheap.c, the free list of the heap and kheap_init, with Heap/Start for its call of
--     kpage_first_alloc, and Heap/Linked for heap_insert_free_chunk over the links of list.h.
--   Platform: platform.c, multiboot2.h and vm.c, the zones and the marking of pages in use, with
--     Platform/Start for the zones of platform_init, and Platform/Preheap for vm_init_preheap with the
--     page tables and the list of address spaces.
--   Kernel: main.c and arch.c, kmain with the parts that it calls.
--   Processor: processor.c and processor.h, the operations on processor sets.
--   Examples: the theorems at concrete inputs.
--
-- Numbers are natural numbers, with the wrap-around of the code's widths written out; where a file
-- leaves it out, its comment says so. A read through NULL, a read behind the end of a format and a
-- write through a pointer that was never written are explicit results (`none` or `fault`). The lists
-- of pages that Pmm has as sequences share no page: where a list has a page twice, or a page is freed
-- that is still on a free list, the code rewrites links of another list, which only Pmm/Linked shows.
--
-- Loops over lists and counters are structural. The other loops run on fuel, and the caller gives one
-- round more than the loop has steps: the outer loop of __printf_internal, whose every round moves
-- the format on by a byte at least; the loops over the consoles, whose every round moves to the next
-- console; list_length, list_for_each_entry and the walks over zones and chunks in memory, whose every round
-- moves to the next node; the outer loop of pmm_free_pages, whose every round removes a page, and the
-- loop that empties a list, whose every round removes one; the partition of qsort, whose
-- every round brings the two scans together; the loop of pmm_add_zone, whose every round raises
-- page_idx, unless there are 2 ^ 32 frames or more, when it never ends; and qsort itself, whose calls sort fewer elements.
--
-- Parameters of the model: the symbols __code_start, __end and __init_hooks_start, the answers
-- of devices, the value of cr3, the mappings of the kernel, the answers of cpuid, the
-- comparison of qsort, the addresses of globals whose links are modelled, and the initial value of
-- `flags` in __printf_internal, which the code does not set.
--
-- Not modelled: x86_mmu_map_addr with the page table updates of mmu.c, and pmm_alloc_contiguous, which
-- are compiled out; assembly; the scheduler, the tasks and the mutex, which
-- are declarations; functions without a body in the code; and initialisation hooks that call
-- kernel_init_upto again.
pub mod Base
pub mod Align
pub mod Balloc
pub mod LinkedList
pub mod Pmm
pub mod Printf
pub mod CString
pub mod Interrupts
pub mod QSort
pub mod Init
pub mod Console
pub mod Kprint
pub mod Machine
pub mod Mmu
pub mod Heap
pub mod Platform
pub mod Processor
pub mod Vmm
pub mod Kernel
pub mod Spinlock
pub mod Threads
mod Examples
