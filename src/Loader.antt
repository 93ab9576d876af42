-- ===== src/Loader.antt =====
-- loader/x86/main.cc, loader/x86/loader.cc and init_pps32 of loader/x86/bootmem.cc: the checks of
-- the boot information, the choice of the kernel, and the mapping of its image. `Machine` stands
-- for the memory with its page tables and the page allocator; `none` is a page fault or a panic.
pub mod Choice
pub mod Segment
pub mod Image
use Prim.Native.Nat.{bit_and, max}
use liqui_dos.Common.{
  ℕ, zero, suc, ◌+◌, ◌-◌, ◌*◌, ◌/◌, ◌%◌, ◌^◌, Bool, true, false, not, ◌&&◌, ◌||◌, Option, none,
  some, List, [], ◌∷◌, ltb, ◌==◌, if◌then◌else◌,
}
use liqui_dos.Strings.{Bytes, memcmp}
use liqui_dos.Paging.{page_size, page_align}
use liqui_dos.Elf.{Phdr, Context, phdr_at, ehdr_at}
use liqui_dos.Mmu.{◌>>=◌}
use liqui_dos.PmmNode.{page_struct}

pub record MultibootInfo : Type 0 where
  pub flags : ℕ
  pub cmdline : ℕ
  pub mods_count : ℕ
  pub mods_addr : ℕ

pub record Module : Type 0 where
  pub mod_start : ℕ
  pub mod_end : ℕ
  pub cmdline : ℕ

-- Where the texts of the file stand.
pub record Names : Type 0 where
  pub cxkrnl32 : ℕ
  pub cxkrnl64 : ℕ
  pub exec32 : ℕ
  pub exec64 : ℕ

abbrev pub bootloader_magic : ℕ
bootloader_magic = 0x2BADB002

abbrev pub check_flag : ℕ → ℕ → Bool
check_flag flags bit = not (bit_and flags (2 ^ bit) == 0)

-- The five hard assertions of `main`.
unfoldable pub is_bootable : ℕ → MultibootInfo → Bool
is_bootable sig mbt =
    (sig == bootloader_magic)
    && check_flag mbt.flags 0
    && (check_flag mbt.flags 3 && not (mbt.mods_addr == 0) && ltb 0 mbt.mods_count)
    && not (check_flag mbt.flags 4 && check_flag mbt.flags 5)
    && check_flag mbt.flags 6

pub record Kernels : Type 0 where
  pub mods_end : ℕ
  pub krnl32 : Option Module
  pub krnl64 : Option Module

abbrev pub or_first : Option Module → Module → Option Module
or_first none entry = some entry
or_first (some first) entry = some first

-- One round of the loop over the modules.
unfoldable pub take_module : Bytes → Names → Module → Kernels → Kernels
take_module m names entry k =
    let is32 = memcmp 8 m entry.cmdline names.cxkrnl32 == 0 in
    let is64 = memcmp 8 m entry.cmdline names.cxkrnl64 == 0 in
    let k1 = record k { mods_end = max k.mods_end entry.mod_end } in
    if is32
    then record k1 { krnl32 = or_first k.krnl32 entry }
    else (if is64 then record k1 { krnl64 = or_first k.krnl64 entry } else k1)

unfoldable pub find_kernels : Bytes → Names → List Module → Kernels → Kernels
unfolding take_module
find_kernels m names [] k = k
find_kernels m names (entry ∷ mods) k = find_kernels m names mods (take_module m names entry k)

pub data Boot : Type 0 where
  init32 : Module → Boot
  init64 : Boot
  panic : Boot

abbrev pub boot32 : Option Module → Boot
boot32 none = panic
boot32 (some entry) = init32 entry

abbrev pub is_found : Option Module → Bool
is_found none = false
is_found (some entry) = true

unfoldable pub choose : Bytes → Names → Bool → MultibootInfo → Kernels → Boot
choose m names longmode mbt k =
    if not (is_found k.krnl32 || is_found k.krnl64)
    then panic
    else (if check_flag mbt.flags 2
        then (if memcmp 6 m mbt.cmdline names.exec32 == 0
            then boot32 k.krnl32
            else (if memcmp 6 m mbt.cmdline names.exec64 == 0
                then (if is_found k.krnl64 && longmode then init64 else panic)
                else panic))
        else (if longmode && is_found k.krnl64 then init64 else boot32 k.krnl32))

unfoldable pub main : Bytes → Names → Bool → ℕ → MultibootInfo → List Module → Boot
unfolding is_bootable find_kernels choose
main m names longmode sig mbt mods =
    if is_bootable sig mbt
    then choose m names longmode mbt
        (find_kernels m names mods (record { mods_end = 0; krnl32 = none; krnl64 = none }))
    else panic

-- The calls that the loader makes on the memory.
pub record Machine {ℓ} (S : Type ℓ) : Type ℓ where
  pub map : ℕ → ℕ → ℕ → S → Option S
  pub alloc_page : S → Option (ℕ × S)
  pub memset : ℕ → ℕ → ℕ → S → Option S
  pub memcpy : ℕ → ℕ → ℕ → S → Option S

abbrev pub pte_pr : ℕ
pte_pr = 1

abbrev pub pte_rw : ℕ
pte_rw = 2

abbrev pub pte_nx : ℕ
pte_nx = 2 ^ 63

abbrev pub virt_base : ℕ
virt_base = 0xE0000000

abbrev pub stack_bottom : ℕ
stack_bottom = 0xFF800000

abbrev pub segment_flags : Phdr → ℕ
segment_flags ph =
    pte_pr
    + (if bit_and ph.p_flags 2 == 0 then 0 else pte_rw)
    + (if bit_and ph.p_flags 1 == 0 then pte_nx else 0)

abbrev pub segment_size : Phdr → ℕ
segment_size ph = page_align 32 ph.p_memsz

module _ {ℓ} {S : Type ℓ} (machine : Machine S) where
  -- `map(v + j, p + j, flags)` for the pages, and `left` to go.
  unfoldable pub map_pages : ℕ → ℕ → ℕ → ℕ → S → Option S
  map_pages zero v p flags s = some s
  map_pages (suc left) v p flags s =
      machine.map (v % 2 ^ 32) p flags s >>= map_pages left (v + page_size) (p + page_size) flags

  -- `map(v + j, pmm_alloc_page(false), flags)`
  unfoldable pub map_new_pages : ℕ → ℕ → ℕ → S → Option S
  map_new_pages zero v flags s = some s
  map_new_pages (suc left) v flags s = do
    (page, s1) ← machine.alloc_page s
    s2 ← machine.map (v % 2 ^ 32) page flags s1
    map_new_pages left (v + page_size) flags s2

  unfoldable pub load_segment : ℕ → Phdr → S → Option S
  unfolding map_pages map_new_pages
  load_segment img ph s =
      let pages = segment_size ph / page_size in
      if not (ph.p_filesz == ph.p_memsz)
      then (do
        s1 ← map_new_pages pages ph.p_vaddr (segment_flags ph) s
        s2 ← machine.memset ph.p_vaddr 0 (segment_size ph) s1
        machine.memcpy ph.p_vaddr ((ph.p_offset + img) % 2 ^ 32) ph.p_filesz s2)
      else map_pages pages ph.p_vaddr (ph.p_offset + img) (segment_flags ph) s

  -- The second component is `my_pps_hard`.
  unfoldable pub load_segments : ℕ → List Phdr → ℕ → S → Option (ℕ × S)
  unfolding load_segment
  load_segments img [] pps_hard s = some (pps_hard, s)
  load_segments img (ph ∷ phs) pps_hard s =
      load_segment img ph s
      >>= load_segments img phs (max pps_hard ((ph.p_vaddr + segment_size ph) % 2 ^ 32))

  -- A page structure takes 16 bytes.
  unfoldable pub init_pps32 : ℕ → ℕ → S → Option S
  unfolding map_new_pages
  init_pps32 num_pages base s =
      let num_struct = (num_pages * page_struct % 2 ^ 32 + 1) % 2 ^ 32 / page_size in
      map_new_pages (num_struct + 1) base (pte_rw + pte_pr) s

  -- The entry point and `my_pps_hard` are handed to the kernel.
  unfoldable pub run_program32 : ℕ → ℕ → ℕ → List Phdr → S → Option (ℕ × ℕ × S)
  unfolding map_pages load_segments init_pps32
  run_program32 num_pages entry img phs s = do
    s1 ← map_pages 256 virt_base 0 (pte_rw + pte_pr) s
    (pps_hard, s2) ← load_segments img phs 0 s1
    s3 ← init_pps32 num_pages pps_hard s2
    (page, s4) ← machine.alloc_page s3
    s5 ← machine.map (stack_bottom - page_size) page (pte_pr + pte_rw + pte_nx) s4
    s6 ← machine.memset (stack_bottom - page_size) 0 page_size s5
    some (entry, pps_hard, s6)

-- The program headers of the image.
unfoldable pub program_headers : ℕ → ℕ → Bytes → Context → List Phdr
program_headers zero i m ctx = []
program_headers (suc left) i m ctx =
    phdr_at m ((ctx.phdr32 + i * 32) % 2 ^ 32) ∷ program_headers left (i + 1) m ctx
