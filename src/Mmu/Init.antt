-- ===== src/Mmu/Init.antt =====
-- init of loader/x86/mmu.cc without PAE: the first page directory and the identity map of the first
-- 4 MiB. Paging is off, so the tables are written in their frames. The new pages are cleared.
use Prim.Native.Nat.{bit_or}
use liqui_dos.Common.Bits.{bit_or-disjoint}
use liqui_dos.Paging.{get_pd_idx, get_pt_idx}
use liqui_dos.Paging.Laws.{get_pd_idx_lem, get_pt_idx_lem}
use liqui_dos.Mmu.{Tables, write_entry, clear_frame, walk, table_flags, ◌>>=◌}
use liqui_dos.Mmu.Table.{IsRecursive}
use liqui_dos.Common.{
  ℕ, zero, suc, ◌+◌, ◌-◌, ◌*◌, ◌/◌, ◌%◌, ◌^◌, ◌≤◌, ◌<◌, ◌≡◌, ◌≢◌, inl, inr, ◌&&◌, ap, ◌∙◌, arith,
  Option, none, some, ltb, leb, ◌==◌, if◌then◌else◌, Bool-cases,
}

-- `pt[i] = (i << ARCH_PAGE_SHIFT) | (PTE_PR | PTE_RW)`, with `left` rounds to go.
unfoldable pub identity_entries : ℕ → ℕ → ℕ → Tables → Tables
identity_entries zero i pt mem = mem
identity_entries (suc left) i pt mem =
    identity_entries left (i + 1) pt
      (write_entry pt i (bit_or (i * 2 ^ 12 % 2 ^ 32) table_flags) mem)

-- The page table of the first 4 MiB.
unfoldable pub identity_table : ℕ → Tables → Tables
unfolding identity_entries
identity_table pt mem = identity_entries 1024 0 pt mem

-- `pd[1023]`, in a new page, and `pd[0]` with the page table in a new page.
unfoldable pub new_dir : ℕ → Tables → Tables
new_dir pd mem =
    let dir = pd / 2 ^ 12 in
    write_entry dir 1023 (bit_or (pd % 2 ^ 32) table_flags) (clear_frame dir mem)

unfoldable pub new_table : ℕ → ℕ → Tables → Tables
unfolding identity_table
new_table dir pt mem =
    let frame = pt / 2 ^ 12 in
    write_entry dir 0 (bit_or (pt % 2 ^ 32) table_flags)
      (identity_table frame (clear_frame frame mem))

-- The page directory's frame, for the register CR3, and the state.
unfoldable pub init : {S : Type 0} → (S → Option (ℕ × S)) → S × Tables → Option (ℕ × S × Tables)
unfolding new_dir new_table
init alloc (s, mem) = do
  (pd, s1) ← alloc s
  let mem1 = new_dir pd mem
  (pt, s2) ← alloc s1
  some (pd / 2 ^ 12, s2, new_table (pd / 2 ^ 12) pt mem1)

identity_entries_lem :
    (left i pt : ℕ) (mem : Tables) (g j : ℕ)
    → i + left ≤ 1024
    → identity_entries left i pt mem g j
      ≡ (if g == pt && (leb i j && ltb j (i + left)) then j * 2 ^ 12 + 3 else mem g j)
unfolding identity_entries
identity_entries_lem zero i pt mem g j l = ground arith
identity_entries_lem (suc left) i pt mem g j l =
    let small : i * 2 ^ 12 % 2 ^ 32 ≡ i * 2 ^ 12 = omega arith in
    let entry : bit_or (i * 2 ^ 12 % 2 ^ 32) 3 ≡ i * 2 ^ 12 + 3 =
      rw small (bit_or-disjoint 12 i 3 (omega arith)) in
    identity_entries_lem left (i + 1) pt _ g j (omega arith) ∙ rw entry (ground arith)

identity_table_lem :
    (pt : ℕ) (mem : Tables) (g j : ℕ)
    → identity_table pt mem g j ≡ (if g == pt && ltb j 1024 then j * 2 ^ 12 + 3 else mem g j)
unfolding identity_table
identity_table_lem pt mem g j = identity_entries_lem 1024 0 pt mem g j (omega arith) ∙ ground arith

table_entry :
    (page : ℕ)
    → page < 2 ^ 32
    → page % 2 ^ 12 ≡ 0
    → bit_or (page % 2 ^ 32) 3 ≡ page / 2 ^ 12 * 2 ^ 12 + 3
table_entry page l aligned =
    let whole : page % 2 ^ 32 ≡ page / 2 ^ 12 * 2 ^ 12 = omega arith in
    rw whole (bit_or-disjoint 12 (page / 2 ^ 12) 3 (omega arith))

-- The tables that `init` leaves, with the directory in frame `d` and the page table in frame `t`.
built : ℕ → ℕ → Tables → Tables
built d t mem =
    write_entry d 0 (t * 2 ^ 12 + 3)
      (identity_table t (clear_frame t (write_entry d 1023 (d * 2 ^ 12 + 3) (clear_frame d mem))))

module _ (d t : ℕ) (mem : Tables) (apart : d ≢ t) (low_d : d < 2 ^ 20) (low_t : t < 2 ^ 20) where
  built_dir :
      (j : ℕ)
      → built d t mem d j
        ≡ (if j == 0 then t * 2 ^ 12 + 3 else (if j == 1023 then d * 2 ^ 12 + 3 else 0))
  unfolding built
  built_dir j = ground (
    arith,
    identity_table_lem t (clear_frame t (write_entry d 1023 (d * 2 ^ 12 + 3) (clear_frame d mem))) d
        j,
  )

  built_table : (j : ℕ) → j < 1024 → built d t mem t j ≡ j * 2 ^ 12 + 3
  unfolding built
  built_table j l = ground (
    arith,
    identity_table_lem t (clear_frame t (write_entry d 1023 (d * 2 ^ 12 + 3) (clear_frame d mem))) t
        j,
  )

  built-IsRecursive : IsRecursive 1024 1023 (built d t mem) d
  built-IsRecursive = record {
    tables = record {
      entries = λ i l. ground (arith, built_dir i);
      writable = λ i l p. ground (arith, built_dir i, p);
      apart = λ i j l k p q e. ground (arith, built_dir i, built_dir j, p, q, e);
    };
    inside = omega arith;
    present = ground (arith, built_dir 1023);
    itself = ground (arith, built_dir 1023);
  }

  -- The first 4 MiB are mapped to themselves, and nothing else below the last 4 MiB.
  walk-built :
      (v : ℕ)
      → v < 2 ^ 32 - 2 ^ 22
      → walk d (built d t mem) v ≡ (if ltb v (2 ^ 22) then some (v / 2 ^ 12 * 2 ^ 12 + 3) else none)
  unfolding walk
  walk-built v l =
      let top = get_pd_idx_lem v in
      let low = get_pt_idx_lem v in
      let bound : get_pt_idx v < 1024 = omega (arith, low) in
      elim (Bool-cases (ltb v (2 ^ 22))) [
        | inl first ↦
            let zero_idx : get_pd_idx v ≡ 0 = ground (arith, top) in
            let same : get_pt_idx v ≡ v / 2 ^ 12 = ground (arith, low) in
            ground (arith, zero_idx, same, bound, built_dir 0, built_table (v / 2 ^ 12))
        | inr later ↦
            let not_first : get_pd_idx v ≢ 0 = ground (arith, top) in
            let not_last : get_pd_idx v ≢ 1023 = ground (arith, top) in
            ground (arith, not_first, not_last, built_dir (get_pd_idx v))
      ]

init_pages :
    {S : Type 0} (alloc : S → Option (ℕ × S)) (s s1 s2 : S) (pd pt : ℕ) (mem : Tables)
    → alloc s ≡ some (pd, s1)
    → alloc s1 ≡ some (pt, s2)
    → init alloc (s, mem) ≡ some (pd / 2 ^ 12, s2, new_table (pd / 2 ^ 12) pt (new_dir pd mem))
unfolding init
init_pages alloc s s1 s2 pd pt mem first second =
    ap
      (λ o. o >>= λ (d, r1).
        alloc r1 >>= λ (t, r2). some (d / 2 ^ 12, r2, new_table (d / 2 ^ 12) t (new_dir d mem)))
      first
    ∙ ap (λ o. o >>= λ (t, r2). some (pd / 2 ^ 12, r2, new_table (pd / 2 ^ 12) t (new_dir pd mem)))
        second

new_tables :
    (pd pt : ℕ) (mem : Tables)
    → pd < 2 ^ 32
    → pt < 2 ^ 32
    → pd % 2 ^ 12 ≡ 0
    → pt % 2 ^ 12 ≡ 0
    → new_table (pd / 2 ^ 12) pt (new_dir pd mem) ≡ built (pd / 2 ^ 12) (pt / 2 ^ 12) mem
unfolding new_table new_dir built
new_tables pd pt mem low_pd low_pt pd_page pt_page =
    ap
      (λ e. write_entry (pd / 2 ^ 12) 0 e (
        identity_table (pt / 2 ^ 12) (
          clear_frame (pt / 2 ^ 12) (
            write_entry (pd / 2 ^ 12) 1023 (bit_or (pd % 2 ^ 32) 3)
              (clear_frame (pd / 2 ^ 12) mem)))))
      (table_entry pt low_pt pt_page)
    ∙ ap
        (λ e. write_entry (pd / 2 ^ 12) 0 (pt / 2 ^ 12 * 2 ^ 12 + 3) (
          identity_table (pt / 2 ^ 12) (
            clear_frame (pt / 2 ^ 12)
              (write_entry (pd / 2 ^ 12) 1023 e (clear_frame (pd / 2 ^ 12) mem)))))
        (table_entry pd low_pd pd_page)

-- Where the allocator gives two different aligned pages below 4 GiB, `init` leaves a directory whose
-- last entry refers to itself, as map needs it, maps the first 4 MiB to themselves, present and
-- writable, and maps nothing else below the last 4 MiB.
pub init-IsRecursive :
    {S : Type 0} (alloc : S → Option (ℕ × S)) (s s1 s2 : S) (pd pt : ℕ) (mem : Tables)
    → alloc s ≡ some (pd, s1)
    → alloc s1 ≡ some (pt, s2)
    → pd < 2 ^ 32
    → pt < 2 ^ 32
    → pd % 2 ^ 12 ≡ 0
    → pt % 2 ^ 12 ≡ 0
    → pd ≢ pt
    → (mem' : Tables) × (init alloc (s, mem) ≡ some (pd / 2 ^ 12, s2, mem'))
      × IsRecursive 1024 1023 mem' (pd / 2 ^ 12)
      × ((v : ℕ)
          → v < 2 ^ 32 - 2 ^ 22
          → walk (pd / 2 ^ 12) mem' v
            ≡ (if ltb v (2 ^ 22) then some (v / 2 ^ 12 * 2 ^ 12 + 3) else none))
init-IsRecursive alloc s s1 s2 pd pt mem first second low_pd low_pt pd_page pt_page differ =
    let d : ℕ = pd / 2 ^ 12 in
    let t : ℕ = pt / 2 ^ 12 in
    let apart : d ≢ t = omega (arith, differ) in
    (
      built d t mem,
      init_pages alloc s s1 s2 pd pt mem first second
          ∙ ap (λ m. some (d, s2, m)) (new_tables pd pt mem low_pd low_pt pd_page pt_page),
      built-IsRecursive d t mem apart (omega arith) (omega arith),
      walk-built d t mem apart (omega arith) (omega arith),
    )
