-- ===== src/BootMem/Init.antt =====
-- init_bootmm32: which pages are free after it.
use liqui_dos.Common.{
  ℕ, zero, suc, ◌+◌, ◌-◌, ◌/◌, ◌%◌, ◌^◌, ◌≤◌, ◌<◌, ◌≡◌, inl, inr, refl, Bool, true, false, not,
  ◌&&◌, ◌||◌, ap, ◌∙◌, arith, Option, none, some, List, [], ◌∷◌, ltb, leb, ◌==◌, if◌then◌else◌,
  Bool-cases,
}
use liqui_dos.Bitmap.{Words, ones, is_set, setbit, clrbit, getlength}
use liqui_dos.Bitmap.Bits.{is_set-setbit, is_set-clrbit, is_set-eq-bit}
use liqui_dos.Common.Bits.{nth_bit-ones}
use liqui_dos.Paging.{page_size, page_align}
use liqui_dos.BootMem.{
  MmapEntry, BootMem, one_out, memory_available, first_page, end_page, clear_pages, set_pages,
  free_areas, max_mem, recount, update_all, scan_memory, reserve_kernel, enough_memory,
  init_bootmm32,
}

-- Page `j` lies in an available area, rounded inwards to whole pages.
abbrev pub is_available : List MmapEntry → ℕ → Bool
is_available [] j = false
is_available (m ∷ rest) j =
    (m.kind == memory_available && (leb (first_page m) j && ltb j (end_page m)))
    || is_available rest j

is_set-clear_pages :
    (left i : ℕ) (bits : Words) (j : ℕ)
    → is_set (clear_pages left i bits) j ≡ (not (leb i j && ltb j (i + left)) && is_set bits j)
unfolding clear_pages
is_set-clear_pages zero i bits j = ground arith
is_set-clear_pages (suc left) i bits j =
    ground (arith, is_set-clear_pages left (i + 1) (clrbit bits i) j, is_set-clrbit bits i j)

is_set-set_pages :
    (left i : ℕ) (bits : Words) (j : ℕ)
    → is_set (set_pages left i bits) j ≡ ((leb i j && ltb j (i + left)) || is_set bits j)
unfolding set_pages
is_set-set_pages zero i bits j = ground arith
is_set-set_pages (suc left) i bits j =
    ground (arith, is_set-set_pages left (i + 1) (setbit bits i) j, is_set-setbit bits i j)

clear_case :
    (lo hi j : ℕ) (later b : Bool)
    → (not later && (not (leb lo j && ltb j (lo + (hi - lo))) && b))
      ≡ (not ((leb lo j && ltb j hi) || later) && b)
clear_case lo hi j later b = ground arith

-- With PAE the loop over the memory map frees the pages of the available areas and no other.
is_set-free_areas :
    (mmap : List MmapEntry) (avail : ℕ) (bits : Words) (j : ℕ)
    → is_set (free_areas true mmap (avail, bits)).1 j ≡ (not (is_available mmap j) && is_set bits j)
unfolding free_areas
is_set-free_areas [] avail bits j = ground arith
is_set-free_areas (m ∷ rest) avail bits j = elim (Bool-cases (m.kind == memory_available)) [
  | inl ram ↦ rw ram (
      is_set-free_areas rest _ _ j
      ∙ ap (λ b. not (is_available rest j) && b)
          (is_set-clear_pages (end_page m - first_page m) (first_page m) bits j)
      ∙ clear_case (first_page m) (end_page m) j (is_available rest j) (is_set bits j))
  | inr other ↦ rw other (is_set-free_areas rest avail bits j)
]

recount-lt : (left i : ℕ) (bits : Words) (sum : ℕ) → sum < 2 ^ 32 → recount left i bits sum < 2 ^ 32
unfolding recount
recount-lt zero i bits sum h = h
recount-lt (suc left) i bits sum h =
    recount-lt left (i + 1) bits (if is_set bits i then sum else (sum + page_size) % 2 ^ 32)
      (ground arith)

and_true : (b : Bool) → (b && true) ≡ b
and_true true = refl
and_true false = refl

and_false : (b : Bool) → (b && false) ≡ false
and_false true = refl
and_false false = refl

-- With 4 GiB of available memory or more the initialization never succeeds: the recount is
-- kept in 32 bits, and the assertion compares it with the 64-bit sum.
pub init_bootmm32-large :
    (has_pae : Bool) (mmap : List MmapEntry) (mods_end : ℕ) (memory : Words)
    → 2 ^ 32 ≤ (scan_memory has_pae mmap memory).avail_mem
    → init_bootmm32 has_pae mmap mods_end memory ≡ none
unfolding init_bootmm32
init_bootmm32-large has_pae mmap mods_end memory large =
    let s = scan_memory has_pae mmap memory in
    let small = recount-lt (s.alloc_map).bit_count 0 (s.alloc_map).bitmap 0 (omega arith) in
    let differ : (s.avail_mem == recount (s.alloc_map).bit_count 0 (s.alloc_map).bitmap 0) ≡ false =
      ground arith in
    rw (differ, and_false (enough_memory mmap))

-- The pages from 1 MiB up to the first page behind the modules.
abbrev pub is_kernel : ℕ → ℕ → Bool
is_kernel mods_end j = leb 0x100 j && leb j (page_align 32 mods_end / page_size)

is_set-ones : (a : Words) (j : ℕ) → a (j / 32) ≡ ones → is_set a j ≡ true
is_set-ones a j e = is_set-eq-bit a j ∙ rw e (rw (nth_bit-ones 32 (j % 32) (omega arith)))

-- The bits after the memory map is read, with PAE: within the bitmap a page is marked exactly if
-- it lies in no available area.
is_set-scan_memory :
    (mmap : List MmapEntry) (memory : Words) (j : ℕ)
    → j < (scan_memory true mmap memory).num_pages
    → is_set ((scan_memory true mmap memory).alloc_map).bitmap j ≡ not (is_available mmap j)
unfolding scan_memory getlength
is_set-scan_memory mmap memory j h =
    let pages : ℕ = page_align 64 (max_mem 0 mmap) / page_size % 2 ^ 32 in
    let full : is_set (one_out (getlength pages) memory) j ≡ true =
      is_set-ones (one_out (getlength pages) memory) j (ground arith) in
    is_set-free_areas mmap 0 (one_out (getlength pages) memory) j ∙ rw full (and_true _)

passed :
    (test : Bool) (r : Option BootMem) (s : BootMem)
    → (if test then r else none) ≡ some s
    → r ≡ some s
passed true r s e = e
passed false r s e = cc

updated :
    (r s : BootMem)
    → update_all r ≡ some s
    → (s.alloc_map ≡ r.alloc_map) × (s.num_pages ≡ r.num_pages)
unfolding update_all
updated r s e = ground arith

reserved :
    (s : BootMem) (mods_end j : ℕ)
    → is_set ((reserve_kernel mods_end s).alloc_map).bitmap j
      ≡ (is_kernel mods_end j || is_set (s.alloc_map).bitmap j)
unfolding reserve_kernel
reserved s mods_end j = ground (
  arith,
  is_set-set_pages (page_align 32 mods_end / page_size + 1 - 0x100) 0x100 (s.alloc_map).bitmap j,
)

-- After a successful initialization with PAE a page below the page count is free exactly if it
-- lies in an available area and not between 1 MiB and the first page behind the modules.
pub init_bootmm32-is_set :
    (mmap : List MmapEntry) (mods_end : ℕ) (memory : Words) (s : BootMem) (j : ℕ)
    → init_bootmm32 true mmap mods_end memory ≡ some s
    → j < s.num_pages
    → is_set (s.alloc_map).bitmap j ≡ (is_kernel mods_end j || not (is_available mmap j))
unfolding init_bootmm32 reserve_kernel
init_bootmm32-is_set mmap mods_end memory s j done h =
    let r : BootMem = reserve_kernel mods_end (scan_memory true mmap memory) in
    let (map_same, count_same) = updated r s (passed _ (update_all r) s done) in
    let inside : j < (scan_memory true mmap memory).num_pages = rw count_same at h in
    rw map_same (
      reserved (scan_memory true mmap memory) mods_end j
      ∙ ap (λ b. is_kernel mods_end j || b) (is_set-scan_memory mmap memory j inside))
