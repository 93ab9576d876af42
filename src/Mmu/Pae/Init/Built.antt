-- ===== src/Mmu/Pae/Init/Built.antt =====
-- The tables that init of loader/x86/mmu.cc with PAE leaves, by their frames.
use liqui_dos.Mmu.Pae.Init.{identity_entries}
use Prim.Native.Nat.{bit_or}
use liqui_dos.Common.Bits.{bit_or-disjoint}
use liqui_dos.Mmu.{Tables, frame_of, is_present, write_entry, clear_frame}
use liqui_dos.Mmu.Pae.Table.{IsPaeRecursive, entry_at}
use liqui_dos.Common.{
  ℕ, zero, suc, ◌+◌, ◌-◌, ◌*◌, ◌^◌, ◌≤◌, ◌<◌, ◌≡◌, ◌⊎◌, inl, inr, refl, sym, true, ◌&&◌, ◌∙◌, arith,
  none, some, ltb, leb, ◌==◌, if◌then◌else◌, Bool-cases,
}

identity_entries_lem :
    (left i base pt : ℕ) (mem : Tables) (g j : ℕ)
    → base ≤ i
    → identity_entries left i base pt mem g j ≡ (
        if g == pt && (leb i (j + base) && ltb (j + base) (i + left))
        then (j + base) * 2 ^ 12 + 3
        else mem g j)
unfolding identity_entries
identity_entries_lem zero i base pt mem g j b = ground arith
identity_entries_lem (suc left) i base pt mem g j b =
    let entry : bit_or (i * 2 ^ 12) 3 ≡ i * 2 ^ 12 + 3 = bit_or-disjoint 12 i 3 (omega arith) in
    identity_entries_lem left (i + 1) base pt _ g j (omega arith) ∙ rw entry (ground arith)

-- The tables that `init` leaves, with the directories in the frames `d 0` to `d 3` and the page
-- tables in the frames `d 4` and `d 5`.
unfoldable pub dirs_built : (ℕ → ℕ) → Tables → Tables
dirs_built d mem = write_entry (d 3) 511 (d 3 * 2 ^ 12 + 3) (
    write_entry (d 3) 510 (d 2 * 2 ^ 12 + 3) (
      write_entry (d 3) 509 (d 1 * 2 ^ 12 + 3) (
        write_entry (d 3) 508 (d 0 * 2 ^ 12 + 3)
          (clear_frame (d 3) (clear_frame (d 2) (clear_frame (d 1) (clear_frame (d 0) mem)))))))

unfoldable pub tables_built : (ℕ → ℕ) → Tables → Tables
tables_built d mem =
    identity_entries 512 512 512 (d 5)
      (identity_entries 512 0 0 (d 4) (clear_frame (d 5) (clear_frame (d 4) (dirs_built d mem))))

unfoldable pub built : (ℕ → ℕ) → Tables → Tables
unfolding tables_built dirs_built
built d mem =
    write_entry (d 0) 1 (d 5 * 2 ^ 12 + 3)
      (write_entry (d 0) 0 (d 4 * 2 ^ 12 + 3) (tables_built d mem))

module _ (d : ℕ → ℕ) (mem : Tables) (apart : (k l : ℕ) → k < 6 → l < 6 → d k ≡ d l → k ≡ l)
    (low : (k : ℕ) → k < 6 → d k < 2 ^ 20) where
  dirs_built_lem :
      (c j : ℕ)
      → c < 4
      → j < 512
      → dirs_built d mem (d c) j ≡ (if c == 3 && leb 508 j then d (j - 508) * 2 ^ 12 + 3 else 0)
  unfolding dirs_built
  dirs_built_lem zero j l m = ground (arith, apart 0 3 (omega arith) (omega arith))
  dirs_built_lem (suc zero) j l m = ground (arith, apart 1 3 (omega arith) (omega arith))
  dirs_built_lem (suc (suc zero)) j l m = ground (arith, apart 2 3 (omega arith) (omega arith))
  dirs_built_lem (suc (suc (suc zero))) j l m = ground arith
  dirs_built_lem (suc (suc (suc (suc c)))) j l m = absurd (omega arith)

  tables_built_lem :
      (g j : ℕ)
      → j < 512
      → tables_built d mem g j ≡ (
          if g == d 5
          then (j + 512) * 2 ^ 12 + 3
          else (if g == d 4 then j * 2 ^ 12 + 3 else dirs_built d mem g j))
  unfolding tables_built
  tables_built_lem g j l = ground (
    arith,
    identity_entries_lem 512 512 512 (d 5)
        (identity_entries 512 0 0 (d 4) (clear_frame (d 5) (clear_frame (d 4) (dirs_built d mem))))
        g j (omega arith),
    identity_entries_lem 512 0 0 (d 4) (clear_frame (d 5) (clear_frame (d 4) (dirs_built d mem))) g
        j (omega arith),
    apart 4 5 (omega arith) (omega arith),
  )

  -- Entry `j` of directory `c`.
  built_dir :
      (c j : ℕ)
      → c < 4
      → j < 512
      → built d mem (d c) j ≡ (
          if c == 0 && leb j 1
          then d (4 + j) * 2 ^ 12 + 3
          else (if c == 3 && leb 508 j then d (j - 508) * 2 ^ 12 + 3 else 0))
  unfolding built
  built_dir c j l m = ground (
    arith,
    tables_built_lem (d c) j m,
    dirs_built_lem c j l m,
    apart c 0 (omega arith) (omega arith),
    apart c 4 (omega arith) (omega arith),
    apart c 5 (omega arith) (omega arith),
  )

  built_table : (k j : ℕ) → k < 2 → j < 512 → built d mem (d (4 + k)) j ≡ (k * 512 + j) * 2 ^ 12 + 3
  unfolding built
  built_table zero j l m = ground (
    arith,
    tables_built_lem (d 4) j m,
    apart 4 0 (omega arith) (omega arith),
    apart 4 5 (omega arith) (omega arith),
  )
  built_table (suc zero) j l m =
      ground (arith, tables_built_lem (d 5) j m, apart 5 0 (omega arith) (omega arith))
  built_table (suc (suc k)) j l m = absurd (omega arith)

  -- Which directory or table an entry refers to.
  target : ℕ → ℕ → ℕ
  target c j = if c == 0 then 4 + j else j - 508

  target-lt :
      (c j : ℕ)
      → c < 4
      → j < 512
      → is_present (built d mem (d c) j) ≡ true
      → (target c j < 6)
        × (frame_of (built d mem (d c) j) ≡ d (target c j))
        × (((c ≡ 0) × (j ≤ 1)) ⊎ ((c ≡ 3) × (508 ≤ j)))
  unfolding target
  target-lt c j l m there = elim (Bool-cases (c == 0 && leb j 1)) [
    | inl a ↦ (
      ground arith,
      ground (arith, built_dir c j l m, low (4 + j)),
      inl (ground arith, ground arith),
    )
    | inr a ↦ elim (Bool-cases (c == 3 && leb 508 j)) [
      | inl b ↦ (
        ground arith,
        ground (arith, built_dir c j l m, low (j - 508)),
        inr (ground arith, ground arith),
      )
      | inr b ↦ absurd (ground (arith, built_dir c j l m))
    ]
  ]

  pub built-IsPaeRecursive : IsPaeRecursive d (built d mem)
  unfolding target
  built-IsPaeRecursive = record {
    tables = record {
      entries = λ c i l m. ground (arith, built_dir c i l m);
      writable = λ c i l m p. ground (arith, built_dir c i l m, p);
      apart = λ c i b j l m p q r s e.
          let (x, f, k) = target-lt c i l m r in
          let (y, g, n) = target-lt b j p q s in
          ground (arith, apart (target c i) (target b j) x y (sym f ∙ e ∙ g));
    };
    present = λ c l. ground (arith, built_dir 3 (508 + c) (omega arith) (omega arith));
    itself = λ c l.
        ground (arith, built_dir 3 (508 + c) (omega arith) (omega arith), low c (omega arith));
  }

  -- The first 4 MiB are mapped to themselves, and nothing else below the last 8 MiB.
  pub entry_at-built :
      (c i j : ℕ)
      → c < 4
      → i < 512
      → j < 512
      → c * 512 + i < 2044
      → entry_at d (built d mem) c i j
        ≡ (if c == 0 && leb i 1 then some ((i * 512 + j) * 2 ^ 12 + 3) else none)
  unfolding entry_at
  entry_at-built c i j l m n o = elim (Bool-cases (c == 0 && leb i 1)) [
    | inl a ↦
        ground
          (arith, built_dir c i l m, low (4 + i) (ground arith), built_table i j (ground arith) n)
    | inr a ↦ ground (arith, built_dir c i l m)
  ]

  pub built-entry_at_congr :
      (e : ℕ → ℕ) (c i j : ℕ)
      → d c ≡ e c
      → entry_at e (built d mem) c i j ≡ entry_at d (built d mem) c i j
  unfolding entry_at
  built-entry_at_congr e c i j same = rw same refl
