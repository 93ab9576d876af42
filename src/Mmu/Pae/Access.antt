-- ===== src/Mmu/Pae/Access.antt =====
-- The page directories and tables as map with PAE reaches them, through the last directory.
use liqui_dos.Common.{ℕ, ◌+◌, ◌*◌, ◌/◌, ◌%◌, ◌^◌, ◌<◌, ◌≡◌, refl, true, ap, ◌∙◌, arith, some}
use liqui_dos.Paging.{pae_get_virt, pae_get_pdpt_idx, pae_get_pd_idx, pae_get_pt_idx}
use liqui_dos.Paging.Laws.{pae_idx_lem, pae_get_virt_lem}
use liqui_dos.Mmu.{Tables, frame_of, is_present, is_writable, write_entry, clear_frame}
use liqui_dos.Mmu.Pae.{walk_pae, walk_write_pae, load_pae, store_pae, clear_page_pae}
use liqui_dos.Mmu.Pae.Table.{entry_at}

-- The frames of the four directories.
abbrev pub dirs : (ℕ → ℕ) → ℕ → ℕ
dirs pdpt c = frame_of (pdpt c)

entry_at-some :
    (d : ℕ → ℕ) (mem : Tables) (c i j : ℕ)
    → is_present (mem (d c) i) ≡ true
    → is_present (mem (frame_of (mem (d c) i)) j) ≡ true
    → entry_at d mem c i j ≡ some (mem (frame_of (mem (d c) i)) j)
unfolding entry_at
entry_at-some d mem c i j a b = rw (a, b) refl

walk_write_pae-some :
    (pdpt : ℕ → ℕ) (mem : Tables) (v e c i : ℕ)
    → walk_pae pdpt mem v ≡ some e
    → pae_get_pdpt_idx v ≡ c
    → pae_get_pd_idx v ≡ i
    → is_writable (mem (dirs pdpt c) i) ≡ true
    → is_writable e ≡ true
    → walk_write_pae pdpt mem v ≡ some e
walk_write_pae-some pdpt mem v e c i w top mid a b = rw (w, top, mid, a, b) refl

module _ (pdpt : ℕ → ℕ) (enabled : (c : ℕ) → c < 4 → is_present (pdpt c) ≡ true) where
  pub walk_pae-eq-entry_at :
      (mem : Tables) (v : ℕ)
      → v < 2 ^ 32
      → walk_pae pdpt mem v
        ≡ entry_at (dirs pdpt) mem (pae_get_pdpt_idx v) (pae_get_pd_idx v) (pae_get_pt_idx v)
  unfolding walk_pae entry_at
  walk_pae-eq-entry_at mem v fits =
      let on : is_present (pdpt (pae_get_pdpt_idx v)) ≡ true =
        enabled (pae_get_pdpt_idx v) (omega (arith, (pae_idx_lem v fits).0)) in
      rw on refl

  module _ (mem : Tables)
      (present : (b : ℕ) → b < 4 → is_present (mem (dirs pdpt 3) (508 + b)) ≡ true)
      (itself : (b : ℕ) → b < 4 → frame_of (mem (dirs pdpt 3) (508 + b)) ≡ dirs pdpt b)
      (writable : (b : ℕ) → b < 4 → is_writable (mem (dirs pdpt 3) (508 + b)) ≡ true) (c i : ℕ)
      (low : c < 4) (below : i < 512) where
    -- Entry `i` of directory `c` through the last directory.
    walk_dir :
        walk_pae pdpt mem (pae_get_virt 3 511 (508 + c) + i * 8)
        ≡ some (mem (dirs pdpt 3) (508 + c))
    walk_dir =
        let v : pae_get_virt 3 511 (508 + c) ≡ 3 * 2 ^ 30 + 511 * 2 ^ 21 + (508 + c) * 2 ^ 12 =
          pae_get_virt_lem 3 511 (508 + c) (omega arith) (omega arith) (omega arith) in
        let (pp, pd, pt) = pae_idx_lem (pae_get_virt 3 511 (508 + c) + i * 8) (omega (arith, v)) in
        let top : pae_get_pdpt_idx (pae_get_virt 3 511 (508 + c) + i * 8) ≡ 3 =
          omega (arith, v, pp) in
        let mid : pae_get_pd_idx (pae_get_virt 3 511 (508 + c) + i * 8) ≡ 508 + 3 =
          omega (arith, v, pd) in
        let last : pae_get_pt_idx (pae_get_virt 3 511 (508 + c) + i * 8) ≡ 508 + c =
          omega (arith, v, pt) in
        let self = itself 3 (omega arith) in
        walk_pae-eq-entry_at mem (pae_get_virt 3 511 (508 + c) + i * 8) (omega (arith, v))
        ∙ ap
            (λ x.
              entry_at (dirs pdpt) mem x (pae_get_pd_idx (pae_get_virt 3 511 (508 + c) + i * 8))
                (pae_get_pt_idx (pae_get_virt 3 511 (508 + c) + i * 8)))
            top
        ∙ ap
            (λ x.
              entry_at (dirs pdpt) mem 3 x (pae_get_pt_idx (pae_get_virt 3 511 (508 + c) + i * 8)))
            mid
        ∙ ap (λ x. entry_at (dirs pdpt) mem 3 (508 + 3) x) last
        ∙ entry_at-some (dirs pdpt) mem 3 (508 + 3) (508 + c) (present 3 (omega arith))
            (ap (λ f. is_present (mem f (508 + c))) self ∙ present c low)
        ∙ ap (λ f. some (mem f (508 + c))) self

    pub load_dir :
        load_pae pdpt mem (pae_get_virt 3 511 (508 + c) + i * 8) ≡ some (mem (dirs pdpt c) i)
    load_dir =
        let v : pae_get_virt 3 511 (508 + c) ≡ 3 * 2 ^ 30 + 511 * 2 ^ 21 + (508 + c) * 2 ^ 12 =
          pae_get_virt_lem 3 511 (508 + c) (omega arith) (omega arith) (omega arith) in
        let index : (pae_get_virt 3 511 (508 + c) + i * 8) % 2 ^ 12 / 8 ≡ i = omega (arith, v) in
        rw (walk_dir, itself c low, index) refl

    write_dir :
        walk_write_pae pdpt mem (pae_get_virt 3 511 (508 + c) + i * 8)
        ≡ some (mem (dirs pdpt 3) (508 + c))
    write_dir =
        let v : pae_get_virt 3 511 (508 + c) ≡ 3 * 2 ^ 30 + 511 * 2 ^ 21 + (508 + c) * 2 ^ 12 =
          pae_get_virt_lem 3 511 (508 + c) (omega arith) (omega arith) (omega arith) in
        let (pp, pd, pt) = pae_idx_lem (pae_get_virt 3 511 (508 + c) + i * 8) (omega (arith, v)) in
        walk_write_pae-some pdpt mem (pae_get_virt 3 511 (508 + c) + i * 8)
          (mem (dirs pdpt 3) (508 + c)) 3 (508 + 3) walk_dir (omega (arith, v, pp))
          (omega (arith, v, pd)) (writable 3 (omega arith)) (writable c low)

    pub store_dir :
        (w : ℕ)
        → store_pae pdpt (pae_get_virt 3 511 (508 + c) + i * 8) w mem
          ≡ some (write_entry (dirs pdpt c) i w mem)
    store_dir w =
        let v : pae_get_virt 3 511 (508 + c) ≡ 3 * 2 ^ 30 + 511 * 2 ^ 21 + (508 + c) * 2 ^ 12 =
          pae_get_virt_lem 3 511 (508 + c) (omega arith) (omega arith) (omega arith) in
        let index : (pae_get_virt 3 511 (508 + c) + i * 8) % 2 ^ 12 / 8 ≡ i = omega (arith, v) in
        rw (write_dir, itself c low, index) refl

    module _ (there : is_present (mem (dirs pdpt c) i) ≡ true)
        (allows : is_writable (mem (dirs pdpt c) i) ≡ true) where
      walk_table :
          (j : ℕ)
          → j < 512
          → walk_pae pdpt mem (pae_get_virt 3 (508 + c) i + j * 8) ≡ some (mem (dirs pdpt c) i)
      walk_table j small =
          let v : pae_get_virt 3 (508 + c) i ≡ 3 * 2 ^ 30 + (508 + c) * 2 ^ 21 + i * 2 ^ 12 =
            pae_get_virt_lem 3 (508 + c) i (omega arith) (omega arith) below in
          let (pp, pd, pt) = pae_idx_lem (pae_get_virt 3 (508 + c) i + j * 8) (omega (arith, v)) in
          let top : pae_get_pdpt_idx (pae_get_virt 3 (508 + c) i + j * 8) ≡ 3 =
            omega (arith, v, pp) in
          let mid : pae_get_pd_idx (pae_get_virt 3 (508 + c) i + j * 8) ≡ 508 + c =
            omega (arith, v, pd) in
          let last : pae_get_pt_idx (pae_get_virt 3 (508 + c) i + j * 8) ≡ i =
            omega (arith, v, pt) in
          let self = itself c low in
          walk_pae-eq-entry_at mem (pae_get_virt 3 (508 + c) i + j * 8) (omega (arith, v))
          ∙ ap
              (λ x.
                entry_at (dirs pdpt) mem x (pae_get_pd_idx (pae_get_virt 3 (508 + c) i + j * 8))
                  (pae_get_pt_idx (pae_get_virt 3 (508 + c) i + j * 8)))
              top
          ∙ ap
              (λ x.
                entry_at (dirs pdpt) mem 3 x (pae_get_pt_idx (pae_get_virt 3 (508 + c) i + j * 8)))
              mid
          ∙ ap (λ x. entry_at (dirs pdpt) mem 3 (508 + c) x) last
          ∙ entry_at-some (dirs pdpt) mem 3 (508 + c) i (present c low)
              (ap (λ f. is_present (mem f i)) self ∙ there)
          ∙ ap (λ f. some (mem f i)) self

      write_table :
          (j : ℕ)
          → j < 512
          → walk_write_pae pdpt mem (pae_get_virt 3 (508 + c) i + j * 8)
            ≡ some (mem (dirs pdpt c) i)
      write_table j small =
          let v : pae_get_virt 3 (508 + c) i ≡ 3 * 2 ^ 30 + (508 + c) * 2 ^ 21 + i * 2 ^ 12 =
            pae_get_virt_lem 3 (508 + c) i (omega arith) (omega arith) below in
          let (pp, pd, pt) = pae_idx_lem (pae_get_virt 3 (508 + c) i + j * 8) (omega (arith, v)) in
          walk_write_pae-some pdpt mem (pae_get_virt 3 (508 + c) i + j * 8) (mem (dirs pdpt c) i) 3
            (508 + c) (walk_table j small) (omega (arith, v, pp)) (omega (arith, v, pd))
            (writable c low) allows

      pub store_table :
          (j w : ℕ)
          → j < 512
          → store_pae pdpt (pae_get_virt 3 (508 + c) i + j * 8) w mem
            ≡ some (write_entry (frame_of (mem (dirs pdpt c) i)) j w mem)
      store_table j w small =
          let v : pae_get_virt 3 (508 + c) i ≡ 3 * 2 ^ 30 + (508 + c) * 2 ^ 21 + i * 2 ^ 12 =
            pae_get_virt_lem 3 (508 + c) i (omega arith) (omega arith) below in
          let index : (pae_get_virt 3 (508 + c) i + j * 8) % 2 ^ 12 / 8 ≡ j = omega (arith, v) in
          rw (write_table j small, index) refl

      pub clear_table :
          clear_page_pae pdpt (pae_get_virt 3 (508 + c) i) mem
          ≡ some (clear_frame (frame_of (mem (dirs pdpt c) i)) mem)
      clear_table =
          let start : pae_get_virt 3 (508 + c) i ≡ pae_get_virt 3 (508 + c) i + 0 * 8 =
            omega arith in
          let w : walk_write_pae pdpt mem (pae_get_virt 3 (508 + c) i)
              ≡ some (mem (dirs pdpt c) i) =
            ap (walk_write_pae pdpt mem) start ∙ write_table 0 (omega arith) in
          rw w refl
