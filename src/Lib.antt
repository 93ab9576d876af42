-- ===== src/Lib.antt =====
-- liqui_dos: a model of the kernel's and the loader's core, with the theorems that make it correct:
-- the memory management from the bitmap of pages to the slab caches and the page tables, the loading
-- of the kernel's image, and the library beneath them: intrusive lists, strings, formatted output,
-- the text screen, descriptors and the processor's features.
--
-- The loader (loader/x86/main.cc) checks the boot information, picks the kernel's image, reads the
-- memory map into a bitmap of pages (loader/x86/bootmem.cc) and maps the segments of the image
-- (loader/x86/loader.cc) with its page tables (loader/x86/mmu.cc); the image's headers and symbols are
-- read by lib/elf/elf_parser.cc. The kernel takes the bitmap over with its boot allocator
-- (core/mm/bootalloc.cc) until the page structures exist, and then with the allocator over arenas
-- (core/mm/pmm_node.cc), which links the free pages of each arena in a list. The slab caches
-- (core/mm/slab.cc) cut pages into objects. The allocators use the bitmap (lib/ebl/include/bitmap.h),
-- the intrusive lists (lib/ebl/include/linked_list.h) and the address macros
-- (include/arch/x86/32/paging.h). printf (lib/libc/printk.c) formats with lib/libc/vsprintf.c into
-- buffers that are flushed to the console (platform/pc/vga.cc).
--
-- Files:
--   Common       Boolean tests, lists over the native numbers, the bits of a number
--   Bitmap       lib/ebl/include/bitmap.h: setbit, clrbit, tstbit, firstz, lastz
--   LinkedList   lib/ebl/include/linked_list.h: the intrusive lists over a heap of nodes
--   Paging       include/arch/x86/32/paging.h: alignment and table indices
--   BootMem      loader/x86/bootmem.cc: init_bootmm32, pmm_alloc_page, pmm_free_page
--   BootAlloc    core/mm/bootalloc.cc: class BootAllocator
--   Pmm          core/mm/pmm.cc: the current allocator
--   PmmNode      core/mm/pmm_node.cc: class PmmNode; PmmNode/Init has add_arena
--   Slab         core/mm/slab.cc: the caches; Slab/Kmalloc has kmalloc and kfree
--   Mmu          arch/x86/32/mmu.cc, loader/x86/mmu.cc: map without PAE; Mmu/Pae has map with
--                PAE, Mmu/Init and Mmu/Pae/Init the loader's first page tables
--   Elf          lib/elf/elf_parser.cc, lib/elf/include: headers, sections, symbols, load_img
--   Loader       loader/x86/main.cc, loader/x86/loader.cc, init_pps32 of loader/x86/bootmem.cc
--   Strings      lib/libc/string.c
--   Characters   lib/libc/ctype.c, abs, labs, ldiv and rand of lib/libc/stdlib.c
--   Printf       lib/libc/vsprintf.c: numbers and texts; Printf/Directive has ssprintf and vsprintf
--   Stream       lib/libc/printk.c: the streams of printf and their buffers
--   Vga          platform/pc/vga.cc, loader/x86/vga.cc: the text screen
--   Cpu          arch/x86/cpu.cc, include/arch/x86/cpu.h: the tables of cpuid and their lookups
--   Platform     platform/pc/platform.cc and pic.cc, isr_handler of arch/x86/32/exceptions.cc
--   Startup      arch/x86/32/init.cc and the tables of gdt.cc and idt.cc, loader/x86/gdt.cc
--   Serial       platform/pc/serial.cc, console_log of core/console.cc
--   Trace        arch/x86/strace.cc
--   Descriptors  arch/x86/32/gdt.cc, arch/x86/32/idt.cc: set_gate and get_gate
--   Examples     the theorems at concrete inputs
-- A method is a function with its name from the state, a record with the fields of the class or the
-- globals of the file, to the new state. Child modules hold the proofs, named for what they prove.
--
-- Numbers: a value is a native number, and an operation of w bits is taken modulo 2 ^ w where it may
-- leave the range; a signed one is in two's complement. A page structure is its address, and all of
-- them lie in one memory, a function from address to structure. An intrusive list is the list of its
-- nodes' addresses, head first, and LinkedList says what that means for the links. Page tables are a
-- function from frame and place to entry, and are read and written at virtual addresses by the
-- processor's walk; Mmu/Range has the calls of map for many pages in a row, and Mmu/Kernel the tables
-- and the boot allocator together. A device is seen by the writes to its ports. `none` as a result is
-- a panic, a failed assertion, a page fault, a write through NULL or a loop that goes on, as the
-- definition says.
--
-- Loops: each is recursion on the number of rounds that are left, as its condition gives it, but for
-- these. The first loop of init_cache in Slab gets as many rounds as an object needs bytes, and
-- doubles the bytes in each; the second gets the bytes of the slab, and takes some in each. The loops
-- of LinkedList that follow pointers get fuel, and one round more than there are nodes is enough. The
-- loops of Strings up to a NUL get fuel too, and more than the text's bytes is enough for strlen. The
-- conversion of a number gets 64 rounds, as a 64-bit number has no more digits. The loop over a format
-- gets a round more than the format has bytes, and takes at least one byte in each. The waits of Serial
-- get fuel for the reads of the status, and a stack trace a round for each frame.
--
-- Not modelled: 64-bit images, the dumps of an image's headers, the loading of the
-- descriptor tables, assembly, the copy of the GDB stub, and the tests. Messages and the clearing
-- of a new page's contents by an allocator change no state that is modelled.
pub mod Common
pub mod Bitmap
pub mod Pmm
pub mod PmmNode
pub mod LinkedList
pub mod Descriptors
pub mod Paging
pub mod BootAlloc
pub mod BootMem
pub mod Strings
pub mod Vga
pub mod Elf
pub mod Mmu
pub mod Printf
pub mod Characters
pub mod Platform
pub mod Startup
pub mod Trace
pub mod Serial
pub mod Cpu
pub mod Loader
pub mod Stream
pub mod Slab
pub mod Examples
