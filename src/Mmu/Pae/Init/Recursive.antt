-- ===== src/Mmu/Pae/Init/Recursive.antt =====
-- init of loader/x86/mmu.cc with PAE gives what map needs.
use liqui_dos.Mmu.Pae.Init.{
  identity_entries, self_entries, first_tables, new_page, pdpt_entries, init_pae,
}
use liqui_dos.Mmu.Pae.Init.Built.{
  dirs_built, tables_built, built, entry_at-built, built-IsPaeRecursive, built-entry_at_congr,
}
use Prim.Native.Nat.{bit_or}
use liqui_dos.Common.Bits.{bit_or-disjoint}
use liqui_dos.Paging.{pae_get_pdpt_idx, pae_get_pd_idx, pae_get_pt_idx}
use liqui_dos.Paging.Laws.{pae_idx_lem}
use liqui_dos.Mmu.{Tables, frame_of, is_present, write_entry, clear_frame, ◌>>=◌}
use liqui_dos.Mmu.Range.{Supplies}
use liqui_dos.Mmu.Pae.{walk_pae}
use liqui_dos.Mmu.Pae.Table.{IsPaeRecursive, IsPaeRecursive-congr}
use liqui_dos.Mmu.Pae.Access.{dirs, walk_pae-eq-entry_at}
use liqui_dos.Common.{
  ℕ, zero, suc, ◌+◌, ◌*◌, ◌/◌, ◌%◌, ◌^◌, ◌<◌, ◌≡◌, refl, sym, true, ap, ◌∙◌, arith, Option, none,
  some, ltb, if◌then◌else◌,
}

-- The entry of a table in a new page.
page_entry : (page : ℕ) → page % 2 ^ 12 ≡ 0 → bit_or page 3 ≡ page / 2 ^ 12 * 2 ^ 12 + 3
page_entry page aligned =
    ap (λ x. bit_or x 3) (omega (arith, aligned))
    ∙ bit_or-disjoint 12 (page / 2 ^ 12) 3 (omega arith)

present_entry :
    (page : ℕ)
    → page % 2 ^ 12 ≡ 0
    → page < 2 ^ 32
    → (is_present (bit_or page 1) ≡ true) × (frame_of (bit_or page 1) ≡ page / 2 ^ 12)
present_entry page aligned low =
    let e : bit_or page 1 ≡ page / 2 ^ 12 * 2 ^ 12 + 1 =
      ap (λ x. bit_or x 1) (omega (arith, aligned))
      ∙ bit_or-disjoint 12 (page / 2 ^ 12) 1 (omega arith) in
    (ground (arith, e), omega (arith, e))

module _ {S : Type 0} (alloc : S → Option (ℕ × S)) (st : ℕ → S) (page : ℕ → ℕ) (mem : Tables)
    (supply : Supplies alloc 6 st page) (aligned : (k : ℕ) → k < 6 → page k % 2 ^ 12 ≡ 0) where
  frame : ℕ → ℕ
  frame k = page k / 2 ^ 12

  pdpt : ℕ → ℕ
  pdpt = pdpt_entries (page 0) (page 1) (page 2) (page 3)

  pdpt_lem : (c : ℕ) → c < 4 → (is_present (pdpt c) ≡ true) × (frame c ≡ dirs pdpt c)
  unfolding pdpt frame
  pdpt_lem zero l =
      let (a, b) =
        present_entry (page 0) (aligned 0 (omega arith)) (supply.small 0 (omega arith)) in
      (a, sym b)
  pdpt_lem (suc zero) l =
      let (a, b) =
        present_entry (page 1) (aligned 1 (omega arith)) (supply.small 1 (omega arith)) in
      (a, sym b)
  pdpt_lem (suc (suc zero)) l =
      let (a, b) =
        present_entry (page 2) (aligned 2 (omega arith)) (supply.small 2 (omega arith)) in
      (a, sym b)
  pdpt_lem (suc (suc (suc zero))) l =
      let (a, b) =
        present_entry (page 3) (aligned 3 (omega arith)) (supply.small 3 (omega arith)) in
      (a, sym b)
  pdpt_lem (suc (suc (suc (suc c)))) l = absurd (omega arith)

  -- A page of the allocator, with the frame of its address.
  new_page_lem :
      (k : ℕ) (m : Tables)
      → k < 6
      → new_page alloc (st k, m) ≡ some (page k, st (suc k), clear_frame (frame k) m)
  unfolding new_page frame
  new_page_lem k m l =
      let whole : page k % 2 ^ 32 ≡ page k = omega (arith, supply.small k l) in
      ap (λ o. o >>= λ (q, t). some (q, t, clear_frame (q % 2 ^ 32 / 2 ^ 12) m)) (supply.gives k l)
      ∙ ap (λ x. some (page k, st (suc k), clear_frame (x / 2 ^ 12) m)) whole

  self_entries_lem :
      (m : Tables)
      → self_entries (page 0) (page 1) (page 2) (page 3) m
        ≡ write_entry (frame 3) 511 (frame 3 * 2 ^ 12 + 3) (
            write_entry (frame 3) 510 (frame 2 * 2 ^ 12 + 3) (
              write_entry
                (frame 3)
                509
                (frame 1 * 2 ^ 12 + 3)
                (write_entry (frame 3) 508 (frame 0 * 2 ^ 12 + 3) m)))
  unfolding self_entries frame
  self_entries_lem m =
      let whole : page 3 % 2 ^ 32 ≡ page 3 = omega (arith, supply.small 3 (omega arith)) in
      rw
        (
          whole,
          page_entry (page 0) (aligned 0 (omega arith)),
          page_entry (page 1) (aligned 1 (omega arith)),
          page_entry (page 2) (aligned 2 (omega arith)),
          page_entry (page 3) (aligned 3 (omega arith)),
        )
        refl

  first_tables_lem :
      (m : Tables)
      → first_tables (page 0) (page 4) (page 5) m
        ≡ write_entry (frame 0) 1 (frame 5 * 2 ^ 12 + 3) (
            write_entry
              (frame 0)
              0
              (frame 4 * 2 ^ 12 + 3)
              (identity_entries 512 512 512 (frame 5) (identity_entries 512 0 0 (frame 4) m)))
  unfolding first_tables frame
  first_tables_lem m =
      let whole0 : page 0 % 2 ^ 32 ≡ page 0 = omega (arith, supply.small 0 (omega arith)) in
      let whole4 : page 4 % 2 ^ 32 ≡ page 4 = omega (arith, supply.small 4 (omega arith)) in
      let whole5 : page 5 % 2 ^ 32 ≡ page 5 = omega (arith, supply.small 5 (omega arith)) in
      rw
        (
          whole0,
          whole4,
          whole5,
          page_entry (page 4) (aligned 4 (omega arith)),
          page_entry (page 5) (aligned 5 (omega arith)),
        )
        refl

  init_pages : init_pae alloc (st 0, mem) ≡ some (pdpt, st 6, built frame mem)
  unfolding init_pae pdpt built tables_built dirs_built
  init_pages =
      let m1 : Tables = clear_frame (frame 0) mem in
      let m2 : Tables = clear_frame (frame 1) m1 in
      let m3 : Tables = clear_frame (frame 2) m2 in
      let m4 : Tables = clear_frame (frame 3) m3 in
      let n4 : Tables = self_entries (page 0) (page 1) (page 2) (page 3) m4 in
      let n5 : Tables = clear_frame (frame 4) n4 in
      let n6 : Tables = clear_frame (frame 5) n5 in
      rw
        (
          new_page_lem 0 mem (omega arith),
          new_page_lem 1 m1 (omega arith),
          new_page_lem 2 m2 (omega arith),
          new_page_lem 3 m3 (omega arith),
          new_page_lem 4 n4 (omega arith),
          new_page_lem 5 n5 (omega arith),
          first_tables_lem n6,
          self_entries_lem m4,
        )
        refl

  frames_apart : (k l : ℕ) → k < 6 → l < 6 → frame k ≡ frame l → k ≡ l
  unfolding frame
  frames_apart k l p q e =
      supply.apart k l p q
        (omega (arith, e, aligned k p, aligned l q, supply.small k p, supply.small l q))

  frames_low : (k : ℕ) → k < 6 → frame k < 2 ^ 20
  unfolding frame
  frames_low k l = omega (arith, supply.small k l)

  walk-built :
      (v : ℕ)
      → v < 0xFF800000
      → walk_pae pdpt (built frame mem) v
        ≡ (if ltb v (2 ^ 22) then some (v / 2 ^ 12 * 2 ^ 12 + 3) else none)
  walk-built v l =
      let (pp, pd, pt) = pae_idx_lem v (omega arith) in
      let c : ℕ = pae_get_pdpt_idx v in
      let i : ℕ = pae_get_pd_idx v in
      let j : ℕ = pae_get_pt_idx v in
      let low : c < 4 = omega (arith, pp) in
      walk_pae-eq-entry_at pdpt (λ c l. (pdpt_lem c l).0) (built frame mem) v (omega arith)
      ∙ built-entry_at_congr frame mem frames_apart frames_low (dirs pdpt) c i j (pdpt_lem c low).1
      ∙ entry_at-built frame mem frames_apart frames_low c i j low (omega (arith, pd))
          (omega (arith, pt)) (omega (arith, pp, pd))
      ∙ ground (arith, pp, pd, pt)

  -- Where the allocator gives six different aligned pages below 4 GiB, `init` with PAE leaves page
  -- directories that are present and refer to themselves, as `map` with PAE needs it, maps the
  -- first 4 MiB to themselves, present and writable, and maps nothing else below the last 8 MiB.
  pub init_pae-IsPaeRecursive :
      (table : ℕ → ℕ) × (mem' : Tables) × (init_pae alloc (st 0, mem) ≡ some (table, st 6, mem'))
      × ((c : ℕ) → c < 4 → is_present (table c) ≡ true)
      × IsPaeRecursive (dirs table) mem'
      × ((v : ℕ)
          → v < 0xFF800000
          → walk_pae table mem' v
            ≡ (if ltb v (2 ^ 22) then some (v / 2 ^ 12 * 2 ^ 12 + 3) else none))
  init_pae-IsPaeRecursive = (
    pdpt,
    built frame mem,
    init_pages,
    (λ c l. (pdpt_lem c l).0),
    IsPaeRecursive-congr frame (dirs pdpt) (built frame mem) (λ c l. (pdpt_lem c l).1)
        (built-IsPaeRecursive frame mem frames_apart frames_low),
    walk-built,
  )
