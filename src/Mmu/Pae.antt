-- ===== src/Mmu/Pae.antt =====
-- arch/x86/32/mmu.cc and loader/x86/mmu.cc with PAE (class Mmu32PaeImpl). Entries have 64 bits, a
-- table 512 of them, and `pdpt` is the table of the four page directories.
pub mod Table
pub mod Access
pub mod Map
pub mod Init
use Prim.Native.Nat.{bit_and, bit_or}
use liqui_dos.Common.{
  ℕ, ◌+◌, ◌*◌, ◌/◌, ◌%◌, ◌^◌, Bool, ◌&&◌, Option, none, some, ◌==◌, if◌then◌else◌,
}
use liqui_dos.Paging.{pae_get_virt, pae_get_pdpt_idx, pae_get_pd_idx, pae_get_pt_idx}
use liqui_dos.Mmu.{
  Tables, frame_of, is_present, is_writable, write_entry, clear_frame, ◌>>=◌, flag_mask,
  table_flags,
}
use liqui_dos.BootMem.{BootMem, alloc_page}
use liqui_dos.BootAlloc.{BootAllocator, allocate_single}

unfoldable pub walk_pae : (ℕ → ℕ) → Tables → ℕ → Option ℕ
walk_pae pdpt mem v =
    let pdpte = pdpt (pae_get_pdpt_idx v) in
    let pde = mem (frame_of pdpte) (pae_get_pd_idx v) in
    let pte = mem (frame_of pde) (pae_get_pt_idx v) in
    if is_present pdpte
    then (if is_present pde then (if is_present pte then some pte else none) else none)
    else none

-- The 64-bit word at a virtual address.
abbrev pub load_pae : (ℕ → ℕ) → Tables → ℕ → Option ℕ
load_pae pdpt mem v = walk_pae pdpt mem v >>= λ e. some (mem (frame_of e) (v % 2 ^ 12 / 8))

-- The entry for a write, which both levels have to allow.
abbrev pub walk_write_pae : (ℕ → ℕ) → Tables → ℕ → Option ℕ
walk_write_pae pdpt mem v =
    let pde = mem (frame_of (pdpt (pae_get_pdpt_idx v))) (pae_get_pd_idx v) in
    walk_pae pdpt mem v >>= λ e. if is_writable pde && is_writable e then some e else none

abbrev pub store_pae : (ℕ → ℕ) → ℕ → ℕ → Tables → Option Tables
store_pae pdpt v w mem =
    walk_write_pae pdpt mem v >>= λ e. some (write_entry (frame_of e) (v % 2 ^ 12 / 8) w mem)

abbrev pub clear_page_pae : (ℕ → ℕ) → ℕ → Tables → Option Tables
clear_page_pae pdpt v mem = walk_write_pae pdpt mem v >>= λ e. some (clear_frame (frame_of e) mem)

-- The flags that are kept: PG_PAE_FLAG_MASK, and PTE_NX where the processor has it.
unfoldable pub kept_flags : Bool → ℕ → ℕ
kept_flags has_nx flags = bit_and flags (if has_nx then 2 ^ 63 + flag_mask else flag_mask)

unfoldable pub need_table_pae :
    {S : Type 0} → (S → Option (ℕ × S)) → (ℕ → ℕ) → ℕ → ℕ → ℕ → S × Tables → Option (S × Tables)
need_table_pae alloc pdpt rpage_dir pdid ptvd (s, mem) = do
  found ← load_pae pdpt mem (rpage_dir + pdid * 8)
  let made = do
    (page, s') ← alloc s
    mem1 ← store_pae pdpt (rpage_dir + pdid * 8) (bit_or page table_flags) mem
    mem2 ← clear_page_pae pdpt ptvd mem1
    some (s', mem2)
  if found == 0 then made else some (s, mem)

-- The physical address is cut to 32 bits, as the code does here too.
unfoldable pub map_pae :
    {S : Type 0}
    → (S → Option (ℕ × S))
    → Bool
    → (ℕ → ℕ)
    → ℕ
    → ℕ
    → ℕ
    → S × Tables
    → Option (S × Tables)
unfolding need_table_pae
map_pae alloc has_nx pdpt virt phys flags (s, mem) =
    let ppid = pae_get_pdpt_idx (virt % 2 ^ 32) in
    let pdid = pae_get_pd_idx (virt % 2 ^ 32) in
    let ptid = pae_get_pt_idx (virt % 2 ^ 32) in
    let rpage_dir = pae_get_virt 3 511 (508 + ppid) in
    let ptvd = pae_get_virt 3 (508 + ppid) pdid in
    let entry = bit_or (phys % 2 ^ 32) (kept_flags has_nx flags) in
    need_table_pae alloc pdpt rpage_dir pdid ptvd (s, mem) >>= λ (s', mem').
    store_pae pdpt (ptvd + ptid * 8) entry mem' >>= λ mem''. some (s', mem'')

-- With the loader's page allocator.
abbrev pub loader_map_pae :
    Bool → (ℕ → ℕ) → ℕ → ℕ → ℕ → BootMem × Tables → Option (BootMem × Tables)
loader_map_pae = map_pae alloc_page

-- With the kernel's boot allocator.
abbrev pub kernel_map_pae :
    Bool → (ℕ → ℕ) → ℕ → ℕ → ℕ → BootAllocator × Tables → Option (BootAllocator × Tables)
kernel_map_pae = map_pae allocate_single
