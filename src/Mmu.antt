-- ===== src/Mmu.antt =====
-- arch/x86/32/mmu.cc and loader/x86/mmu.cc without PAE (class Mmu32NopaeImpl). Physical memory is
-- a function from frame number and word to entry, and `walk` is the processor's translation of a
-- virtual address through the page directory in frame `dir`. Both files read and write the tables
-- at virtual addresses, so they go through `walk` too; a `none` is a page fault. The translation
-- buffer is left out: each change is followed by its flush.
pub mod Pae
pub mod Table
pub mod Map
pub mod Init
pub mod Range
pub mod Kernel
use Prim.Native.Nat.{bit_and, bit_or}
use liqui_dos.Common.{
  ℕ, zero, suc, ◌+◌, ◌*◌, ◌/◌, ◌%◌, ◌^◌, Bool, ◌&&◌, Option, none, some, ◌==◌, if◌then◌else◌,
}
use liqui_dos.Paging.{get_virt, get_pd_idx, get_pt_idx, page_size}
use liqui_dos.BootMem.{BootMem, alloc_page}
use liqui_dos.BootAlloc.{BootAllocator, allocate_single}

abbrev pub Tables : Type 0
Tables = ℕ → ℕ → ℕ

-- The frame that an entry refers to, and its present bit.
abbrev pub frame_of : ℕ → ℕ
frame_of e = e / 2 ^ 12 % 2 ^ 40

abbrev pub is_present : ℕ → Bool
is_present e = e % 2 == 1

-- The bit that allows a write.
abbrev pub is_writable : ℕ → Bool
is_writable e = e / 2 % 2 == 1

abbrev pub write_entry : ℕ → ℕ → ℕ → Tables → Tables
write_entry f i v mem g j = if g == f && j == i then v else mem g j

-- `memset((void*) ptvd, 0, ARCH_PAGE_SIZE)` on the frame that is mapped there.
abbrev pub clear_frame : ℕ → Tables → Tables
clear_frame f mem g j = if g == f then 0 else mem g j

infixl 5 ◌>>=◌
abbrev pub ◌>>=◌ {ℓ κ} : {A : Type ℓ} {B : Type κ} → Option A → (A → Option B) → Option B
none >>= f = none
some a >>= f = f a

unfoldable pub walk : ℕ → Tables → ℕ → Option ℕ
walk dir mem v =
    let pde = mem dir (get_pd_idx v) in
    let pte = mem (frame_of pde) (get_pt_idx v) in
    if is_present pde then (if is_present pte then some pte else none) else none

-- The 32-bit word at a virtual address.
abbrev pub load : ℕ → Tables → ℕ → Option ℕ
load dir mem v = walk dir mem v >>= λ e. some (mem (frame_of e) (v % 2 ^ 12 / 4))

-- The entry for a write. Paging is on with CR0_WP, so both levels have to allow it.
abbrev pub walk_write : ℕ → Tables → ℕ → Option ℕ
walk_write dir mem v = walk dir mem v >>= λ e.
    if is_writable (mem dir (get_pd_idx v)) && is_writable e then some e else none

abbrev pub store : ℕ → ℕ → ℕ → Tables → Option Tables
store dir v w mem =
    walk_write dir mem v >>= λ e. some (write_entry (frame_of e) (v % 2 ^ 12 / 4) w mem)

abbrev pub clear_page : ℕ → ℕ → Tables → Option Tables
clear_page dir v mem = walk_write dir mem v >>= λ e. some (clear_frame (frame_of e) mem)

abbrev pub page_dir_addr : ℕ
page_dir_addr = 0xFFFFF000

-- PG_FLAG_MASK, PDE_RW | PDE_PR
abbrev pub flag_mask : ℕ
flag_mask = 0b100011111

abbrev pub table_flags : ℕ
table_flags = 3

-- The new page table where there is none, by an allocator that gives a page's address.
unfoldable pub need_table :
    {S : Type 0} → (S → Option (ℕ × S)) → ℕ → ℕ → ℕ → S × Tables → Option (S × Tables)
need_table alloc dir pdid ptvd (s, mem) = do
  found ← load dir mem (page_dir_addr + pdid * 4)
  let made = do
    (page, s') ← alloc s
    mem1 ← store dir (page_dir_addr + pdid * 4) (bit_or (page % 2 ^ 32) table_flags) mem
    mem2 ← clear_page dir ptvd mem1
    some (s', mem2)
  if found == 0 then made else some (s, mem)

unfoldable pub map :
    {S : Type 0} → (S → Option (ℕ × S)) → ℕ → ℕ → ℕ → ℕ → S × Tables → Option (S × Tables)
unfolding need_table
map alloc dir virt phys flags (s, mem) =
    let pdid = get_pd_idx (virt % 2 ^ 32) in
    let ptid = get_pt_idx (virt % 2 ^ 32) in
    let ptvd = get_virt 1023 pdid in
    let entry = bit_or (phys % 2 ^ 32) (bit_and (flags % 2 ^ 16) flag_mask) in
    need_table alloc dir pdid ptvd (s, mem) >>= λ (s', mem').
    store dir (ptvd + ptid * 4) entry mem' >>= λ mem''. some (s', mem'')

-- With the loader's page allocator.
abbrev pub loader_map : ℕ → ℕ → ℕ → ℕ → BootMem × Tables → Option (BootMem × Tables)
loader_map = map alloc_page

-- With the kernel's boot allocator.
abbrev pub kernel_map : ℕ → ℕ → ℕ → ℕ → BootAllocator × Tables → Option (BootAllocator × Tables)
kernel_map = map allocate_single
