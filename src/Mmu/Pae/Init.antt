-- ===== src/Mmu/Pae/Init.antt =====
-- init of loader/x86/mmu.cc with PAE: the first page directories and the identity map of the first
-- 4 MiB. Paging is off, so the tables are written in their frames. The new pages are cleared.
pub mod Built
pub mod Recursive
use Prim.Native.Nat.{bit_or}
use liqui_dos.Common.Bits.{bit_or-disjoint}
use liqui_dos.Paging.{pae_get_pdpt_idx, pae_get_pd_idx, pae_get_pt_idx}
use liqui_dos.Paging.Laws.{pae_idx_lem}
use liqui_dos.Mmu.{Tables, frame_of, is_present, write_entry, clear_frame, table_flags, ◌>>=◌}
use liqui_dos.Mmu.Range.{Supplies}
use liqui_dos.Mmu.Pae.{walk_pae}
use liqui_dos.Mmu.Pae.Table.{IsPaeRecursive, IsPaeRecursive-congr, entry_at}
use liqui_dos.Mmu.Pae.Access.{dirs, walk_pae-eq-entry_at}
use liqui_dos.Common.{
  ℕ, zero, suc, ◌+◌, ◌-◌, ◌*◌, ◌/◌, ◌%◌, ◌^◌, ◌≤◌, ◌<◌, ◌≡◌, ◌⊎◌, inl, inr, refl, sym, true, ◌&&◌,
  ap, ◌∙◌, arith, Option, none, some, ltb, leb, ◌==◌, if◌then◌else◌, Bool-cases,
}

-- `pt[i - base] = (i << ARCH_PAGE_SHIFT) | (PTE_PR | PTE_RW)`, with `left` rounds to go.
unfoldable pub identity_entries : ℕ → ℕ → ℕ → ℕ → Tables → Tables
identity_entries zero i base pt mem = mem
identity_entries (suc left) i base pt mem =
    identity_entries left (i + 1) base pt
      (write_entry pt (i - base) (bit_or (i * 2 ^ 12) table_flags) mem)

-- The entries of `pdpt[3]` that refer to the directories.
unfoldable pub self_entries : ℕ → ℕ → ℕ → ℕ → Tables → Tables
self_entries p0 p1 p2 p3 mem =
    let dir = p3 % 2 ^ 32 / 2 ^ 12 in
    write_entry dir 511 (bit_or p3 table_flags) (
      write_entry dir 510 (bit_or p2 table_flags) (
        write_entry dir 509 (bit_or p1 table_flags)
          (write_entry dir 508 (bit_or p0 table_flags) mem)))

-- The two page tables of the first 4 MiB, and their entries in `pdpt[0]`.
unfoldable pub first_tables : ℕ → ℕ → ℕ → Tables → Tables
first_tables p0 pt0 pt1 mem =
    let dir = p0 % 2 ^ 32 / 2 ^ 12 in
    write_entry dir 1 (bit_or (pt1 % 2 ^ 32) table_flags) (
      write_entry dir 0 (bit_or (pt0 % 2 ^ 32) table_flags) (
        identity_entries 512 512 512 (pt1 % 2 ^ 32 / 2 ^ 12)
          (identity_entries 512 0 0 (pt0 % 2 ^ 32 / 2 ^ 12) mem)))

-- A page from the allocator, cleared.
unfoldable pub new_page : {S : Type 0} → (S → Option (ℕ × S)) → S × Tables → Option (ℕ × S × Tables)
new_page alloc (s, mem) =
    alloc s >>= λ (page, s'). some (page, s', clear_frame (page % 2 ^ 32 / 2 ^ 12) mem)

-- PDP_PR in the four entries.
abbrev pub pdpt_entries : ℕ → ℕ → ℕ → ℕ → ℕ → ℕ
pdpt_entries p0 p1 p2 p3 c =
    if c == 0
    then bit_or p0 1
    else (if c == 1 then bit_or p1 1 else (if c == 2 then bit_or p2 1 else bit_or p3 1))

-- The table of the directories, for the register CR3, and the state.
unfoldable pub init_pae :
    {S : Type 0} → (S → Option (ℕ × S)) → S × Tables → Option ((ℕ → ℕ) × S × Tables)
init_pae alloc (s, mem) = do
  (p0, s1, mem1) ← new_page alloc (s, mem)
  (p1, s2, mem2) ← new_page alloc (s1, mem1)
  (p2, s3, mem3) ← new_page alloc (s2, mem2)
  (p3, s4, mem4) ← new_page alloc (s3, mem3)
  (pt0, s5, mem5) ← new_page alloc (s4, self_entries p0 p1 p2 p3 mem4)
  (pt1, s6, mem6) ← new_page alloc (s5, mem5)
  some (pdpt_entries p0 p1 p2 p3, s6, first_tables p0 pt0 pt1 mem6)
