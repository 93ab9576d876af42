-- ===== src/BootMem.antt =====
-- loader/x86/bootmem.cc: the loader's page allocator, in its default form (ALLOCATE_FIRST is off).
-- The multiboot memory map is the list of its entries, and what the CPU answers to the PAE test is
-- an argument.
pub mod Alloc
pub mod Init
use liqui_dos.Common.{
  ℕ, zero, suc, ◌+◌, ◌-◌, ◌*◌, ◌/◌, ◌%◌, ◌^◌, Bool, true, false, not, ◌&&◌, ◌||◌, Option, none,
  some, List, [], ◌∷◌, ltb, leb, ◌==◌, if◌then◌else◌,
}
use liqui_dos.Bitmap.{Words, Bitmap, ones, setbit, clrbit, is_set, lastz, getlength}
use liqui_dos.Paging.{page_size, page_align, page_align_down}
use liqui_dos.BootAlloc.{with_bits, clear_bytes, last_byte}

-- `multiboot_memory_map_t`
pub record MmapEntry : Type 0 where
  pub addr : ℕ
  pub len : ℕ
  pub kind : ℕ

abbrev pub memory_available : ℕ
memory_available = 1

-- The globals of the file.
pub record BootMem : Type 0 where
  pub alloc_map : Bitmap
  pub resrv_map : Bitmap
  pub avail_mem : ℕ
  pub num_pages : ℕ
  pub ptr : ℕ

-- The panic of the first loop.
unfoldable pub enough_memory : List MmapEntry → Bool
enough_memory [] = true
enough_memory (m ∷ rest) =
    not (m.addr == 0x100000 && not (m.kind == memory_available && ltb 0x4000000 m.len))
    && enough_memory rest

unfoldable pub max_mem : ℕ → List MmapEntry → ℕ
max_mem top [] = top
max_mem top (m ∷ rest) =
    let end = (m.addr + m.len) % 2 ^ 64 in max_mem (if ltb end top then top else end) rest

-- `memset(alloc_map.bitmap, -1, ...)`
abbrev pub one_out : ℕ → Words → Words
one_out length bits i = if ltb i length then ones else bits i

-- Clears the bits of pages `i` to `i + left - 1`.
unfoldable pub clear_pages : ℕ → ℕ → Words → Words
clear_pages zero i bits = bits
clear_pages (suc left) i bits = clear_pages left (i + 1) (clrbit bits i)

abbrev pub first_page : MmapEntry → ℕ
first_page m = page_align 64 m.addr / page_size

abbrev pub end_page : MmapEntry → ℕ
end_page m = page_align_down 64 ((m.addr + m.len) % 2 ^ 64) / page_size

-- The loop that frees the available areas; `has_pae` is `x86_feature_test(x86_FEATURE_PAE)`.
unfoldable pub free_areas : Bool → List MmapEntry → ℕ × Words → ℕ × Words
unfolding clear_pages
free_areas has_pae [] s = s
free_areas has_pae (m ∷ rest) (avail, bits) =
    let start = first_page m in
    let end = end_page m in
    let more = (avail + (end + 2 ^ 64 - start) * page_size) % 2 ^ 64 in
    let freed = free_areas has_pae rest (more, clear_pages (end - start) start bits) in
    let skipped = free_areas has_pae rest (avail, bits) in
    if not has_pae && leb 0xFFFFFFFF m.addr
    then (avail, bits)
    else (if m.kind == memory_available then freed else skipped)

-- The recount of the clear bits in a `uint32_t`.
unfoldable pub recount : ℕ → ℕ → Words → ℕ → ℕ
recount zero i bits sum = sum
recount (suc left) i bits sum =
    recount left (i + 1) bits (if is_set bits i then sum else (sum + page_size) % 2 ^ 32)

-- Sets the bits of pages `i` to `i + left - 1`.
unfoldable pub set_pages : ℕ → ℕ → Words → Words
set_pages zero i bits = bits
set_pages (suc left) i bits = set_pages left (i + 1) (setbit bits i)

-- `none` is the panic.
unfoldable pub update_all : BootMem → Option BootMem
update_all s = elim (lastz s.alloc_map) [ none ↦ none | some k ↦ some (record s { ptr = k }) ]

-- The state after the areas are freed, over what memory holds at the bitmap's place; the maps are
-- zero initialized.
unfoldable pub scan_memory : Bool → List MmapEntry → Words → BootMem
unfolding max_mem free_areas
scan_memory has_pae mmap memory =
    let pages = page_align 64 (max_mem 0 mmap) / page_size % 2 ^ 32 in
    let (avail, bits) = free_areas has_pae mmap (0, one_out (getlength pages) memory) in
    record {
      alloc_map = record { length = getlength pages; bit_count = pages; bitmap = bits };
      resrv_map = record { length = 8192; bit_count = 0; bitmap = λ _. 0 };
      avail_mem = avail;
      num_pages = pages;
      ptr = 0;
    }

-- Marks the pages from 1 MiB to the first page of the bitmap, which stands behind the modules.
unfoldable pub reserve_kernel : ℕ → BootMem → BootMem
unfolding set_pages
reserve_kernel mods_end s =
    let rounds = page_align 32 mods_end / page_size + 1 - 0x100000 / page_size in
    record s {
      alloc_map = with_bits s.alloc_map (set_pages rounds 0x100 (s.alloc_map).bitmap);
      resrv_map = with_bits s.resrv_map (set_pages rounds 0x100 (s.resrv_map).bitmap);
    }

-- `none` is a panic or the failed assertion.
unfoldable pub init_bootmm32 : Bool → List MmapEntry → ℕ → Words → Option BootMem
init_bootmm32 has_pae mmap mods_end memory =
    let s = scan_memory has_pae mmap memory in
    let sum = recount (s.alloc_map).bit_count 0 (s.alloc_map).bitmap 0 in
    if enough_memory mmap && s.avail_mem == sum
    then update_all (reserve_kernel mods_end s)
    else none

unfoldable pub take_ptr : BootMem → ℕ × BootMem
take_ptr s = (
  s.ptr * page_size % 2 ^ 64,
  record s {
    alloc_map = with_bits s.alloc_map (setbit (s.alloc_map).bitmap s.ptr);
    ptr = (s.ptr + 2 ^ 64 - 1) % 2 ^ 64;
  },
)

-- The page's address and the new state; clearing the page itself is not part of this state.
unfoldable pub alloc_page : BootMem → Option (ℕ × BootMem)
unfolding update_all take_ptr
alloc_page s =
    if is_set (s.alloc_map).bitmap s.ptr || leb s.ptr 1
    then elim (update_all s) [ none ↦ none | some s' ↦ some (take_ptr s') ]
    else some (take_ptr s)

unfoldable pub free_page : BootMem → ℕ → BootMem
free_page s address = record s {
  alloc_map =
      with_bits s.alloc_map (clrbit (s.alloc_map).bitmap (page_align_down 64 address / page_size));
}

unfoldable pub free_page_multi : BootMem → ℕ → ℕ → BootMem
free_page_multi s address pages = record s {
  alloc_map =
      with_bits s.alloc_map
        (clear_bytes (last_byte address pages + 1 - address) address (s.alloc_map).bitmap);
}
