-- ===== src/Examples/Boot.antt =====
-- The two boot allocators on a bitmap of one word.
use liqui_dos.Common.{
  ℕ, ◌+◌, ◌*◌, ◌^◌, ◌≡◌, refl, true, false, not, ◌&&◌, ◌||◌, arith, some, List, [], ◌∷◌, ltb, leb,
  ◌==◌,
}
use liqui_dos.Bitmap.{Words, Bitmap, tstbit, is_set, clrbit, getlength, lastz}
use liqui_dos.Paging.{page_size, page_align, page_align_down}
use liqui_dos.BootAlloc.{BootAllocator, allocate_single, free}
use liqui_dos.BootAlloc.Clear.{is_set-free}
use liqui_dos.BootAlloc.Single.{IsBootAllocator, Outcome, allocate_single-Outcome}
use liqui_dos.BootMem.{
  MmapEntry, BootMem, enough_memory, recount, update_all, scan_memory, reserve_kernel,
  init_bootmm32, alloc_page, free_page,
}
use liqui_dos.BootMem.Alloc.{alloc_page-free_page, alloc_page-twice}
use liqui_dos.BootMem.Init.{is_available, is_kernel, init_bootmm32-is_set}

-- Pages 2 and 3 are free.
abbrev bits : Words
bits _ = 0xFFFFFFF3

abbrev map : Bitmap
map = record { length = 1; bit_count = 32; bitmap = bits }

abbrev boot : BootAllocator
boot = record { alloc_map = map; ptr = 0 }

boot-IsBootAllocator : IsBootAllocator boot
boot-IsBootAllocator = record {
  words = λ i. omega arith;
  fits = omega arith;
  small = omega arith;
  padded = λ j h k. absurd (omega arith);
}

allocate_single-Outcome_example : Outcome boot (allocate_single boot)
allocate_single-Outcome_example = allocate_single-Outcome boot boot-IsBootAllocator

is_set-free_example :
    is_set ((free boot (record { addr = 1 * page_size; pages = 1 })).alloc_map).bitmap 0
    ≡ (not (leb 1 0 && ltb 0 (1 + 1)) && is_set bits 0)
is_set-free_example = is_set-free boot 1 1 0 (omega arith) (omega arith) (omega arith)

abbrev loader : BootMem
loader = record { alloc_map = map; resrv_map = map; avail_mem = 0x2000; num_pages = 32; ptr = 3 }

page3_clear : is_set bits 3 ≡ false
unfolding tstbit
page3_clear = refl

page1_set : is_set bits 1 ≡ true
unfolding tstbit
page1_set = refl

page0_set : is_set bits 0 ≡ true
unfolding tstbit
page0_set = refl

alloc_page-free_page_example :
    (s' : BootMem) × (alloc_page loader ≡ some (3 * page_size, s'))
    × (s'.ptr + 1 ≡ 3)
    × ((j : ℕ) → is_set (s'.alloc_map).bitmap j ≡ (j == 3 || is_set bits j))
    × ((j : ℕ) → is_set ((free_page s' (3 * page_size)).alloc_map).bitmap j ≡ is_set bits j)
alloc_page-free_page_example = alloc_page-free_page loader page3_clear (omega arith) (omega arith)

abbrev stuck : BootMem
stuck = record loader { ptr = 1 }

alloc_page-twice_example :
    (s' : BootMem) × (alloc_page stuck ≡ some (0 * 32 * page_size, s'))
    × ((j : ℕ) → is_set (s'.alloc_map).bitmap j ≡ is_set bits j)
alloc_page-twice_example =
    alloc_page-twice stuck 0 page1_set (omega arith) (omega arith) (λ j h k. absurd (omega arith))
      page0_set (omega arith)

-- Four pages of memory at 0.
abbrev small_map : List MmapEntry
small_map = record { addr = 0; len = 0x4000; kind = 1 } ∷ []

-- 4 GiB of memory at 4 GiB.
abbrev large_map : List MmapEntry
large_map = record { addr = 2 ^ 32; len = 2 ^ 32; kind = 1 } ∷ []

abbrev blank : Words
blank _ = 0

large_sum : (scan_memory true large_map blank).avail_mem ≡ 2 ^ 32
unfolding scan_memory page_align_down page_align
large_sum = refl

abbrev booted : BootMem
booted = record (reserve_kernel 0x1000 (scan_memory true small_map blank)) { ptr = 0 }

boots : init_bootmm32 true small_map 0x1000 blank ≡ some booted
unfolding init_bootmm32 enough_memory scan_memory page_align_down page_align recount tstbit clrbit
    getlength update_all lastz reserve_kernel
boots = refl

booted_count : booted.num_pages ≡ 4
unfolding scan_memory reserve_kernel page_align_down page_align
booted_count = refl

init_bootmm32-is_set_example :
    is_set (booted.alloc_map).bitmap 2 ≡ (is_kernel 0x1000 2 || not (is_available small_map 2))
init_bootmm32-is_set_example =
    init_bootmm32-is_set small_map 0x1000 blank booted 2 boots (omega (arith, booted_count))
