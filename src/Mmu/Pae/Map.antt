-- ===== src/Mmu/Pae/Map.antt =====
-- map with PAE on page directories that refer to themselves.
use liqui_dos.Common.{
  ℕ, ◌+◌, ◌*◌, ◌/◌, ◌%◌, ◌^◌, ◌<◌, ◌≡◌, ◌≢◌, inl, inr, refl, sym, true, ap, ◌∙◌, arith, Bool,
  Option, some, ◌==◌, if◌then◌else◌, Bool-cases,
}
use Prim.Native.Nat.{bit_and, bit_or}
use liqui_dos.Common.Bits.{bit_or-disjoint, bit_or_step, bit_and_step}
use liqui_dos.Paging.{pae_get_virt, pae_get_pdpt_idx, pae_get_pd_idx, pae_get_pt_idx}
use liqui_dos.Paging.Laws.{pae_idx_lem}
use liqui_dos.Mmu.{Tables, frame_of, is_present, is_writable, write_entry, clear_frame, flag_mask}
use liqui_dos.Mmu.Pae.{walk_pae, clear_page_pae, kept_flags, need_table_pae, map_pae}
use liqui_dos.Mmu.Pae.Table.{
  IsOrdinary, IsPaeRecursive, IsPaeFresh, dirs_apart, made, made-IsPaeMade, written_entry,
}
use liqui_dos.Mmu.Pae.Access.{
  dirs, walk_pae-eq-entry_at, load_dir, store_dir, store_table, clear_table,
}

module _ {S : Type 0} (alloc : S → Option (ℕ × S)) (s s' : S) (page : ℕ) (mem : Tables)
    (pdpt : ℕ → ℕ) (enabled : (b : ℕ) → b < 4 → is_present (pdpt b) ≡ true) (c i : ℕ)
    (o : IsOrdinary c i) (h : IsPaeRecursive (dirs pdpt) mem)
    (gives : mem (dirs pdpt c) i ≡ 0 → alloc s ≡ some (page, s'))
    (fresh : mem (dirs pdpt c) i ≡ 0 → IsPaeFresh page (dirs pdpt) mem) where
  table_entry : mem (dirs pdpt c) i ≡ 0 → bit_or page 3 ≡ page + 3
  table_entry empty =
      let aligned : page ≡ page / 2 ^ 12 * 2 ^ 12 = omega (arith, (fresh empty).aligned) in
      ap (λ x. bit_or x 3) aligned
      ∙ bit_or-disjoint 12 (page / 2 ^ 12) 3 (omega arith)
      ∙ omega (arith, aligned)

  allowed : (b : ℕ) → b < 4 → is_writable (mem (dirs pdpt 3) (508 + b)) ≡ true
  allowed b p = (h.tables).writable 3 (508 + b) (omega arith) (omega arith) (h.present b p)

  -- The state after the table is there: the allocator's where one was needed.
  need_table_pae_lem :
      need_table_pae alloc pdpt
        (pae_get_virt 3 511 (508 + c))
        i
        (pae_get_virt 3 (508 + c) i)
        (s, mem)
      ≡ some (if mem (dirs pdpt c) i == 0 then s' else s, made (dirs pdpt) c i page mem)
  unfolding need_table_pae made
  need_table_pae_lem = elim (Bool-cases (mem (dirs pdpt c) i == 0)) [
    | inl empty ↦
        let none_there : mem (dirs pdpt c) i ≡ 0 = ground arith in
        let new = fresh none_there in
        let mem1 : Tables = write_entry (dirs pdpt c) i (page + 3) mem in
        let entry : mem1 (dirs pdpt c) i ≡ page + 3 = ground arith in
        let old_present : (b : ℕ) → b < 4 → is_present (mem1 (dirs pdpt 3) (508 + b)) ≡ true =
          λ b p.
            ground (
              arith,
              h.present b p,
              dirs_apart (dirs pdpt) mem h 3 c (omega arith) o.dir,
              o.other,
            ) in
        let old_itself : (b : ℕ) → b < 4 → frame_of (mem1 (dirs pdpt 3) (508 + b)) ≡ dirs pdpt b =
          λ b p.
            ground (
              arith,
              h.itself b p,
              dirs_apart (dirs pdpt) mem h 3 c (omega arith) o.dir,
              o.other,
            ) in
        let old_allowed : (b : ℕ) → b < 4 → is_writable (mem1 (dirs pdpt 3) (508 + b)) ≡ true =
          λ b p.
            ground
              (arith, allowed b p, dirs_apart (dirs pdpt) mem h 3 c (omega arith) o.dir, o.other) in
        let cleared : clear_page_pae pdpt (pae_get_virt 3 (508 + c) i) mem1
            ≡ some (clear_frame (frame_of (page + 3)) mem1) =
          clear_table pdpt enabled mem1 old_present old_itself old_allowed c i o.dir o.place
            (ground (arith, new.aligned)) (ground (arith, new.aligned))
          ∙ ap (λ e. some (clear_frame (frame_of e) mem1)) entry in
        rw
          (
            load_dir pdpt enabled mem h.present h.itself allowed c i o.dir o.place,
            gives none_there,
            table_entry none_there,
            store_dir pdpt enabled mem h.present h.itself allowed c i o.dir o.place (page + 3),
          )
          (rw (cleared, empty, made) refl)
    | inr old ↦
        rw (load_dir pdpt enabled mem h.present h.itself allowed c i o.dir o.place)
          (rw (old, made) refl)
  ]

-- The entry that `map` writes.
abbrev pub pae_entry : Bool → ℕ → ℕ → ℕ
pae_entry has_nx phys flags = bit_or (phys % 2 ^ 32) (kept_flags has_nx flags)

pae_entry-present :
    (has_nx : Bool) (phys flags : ℕ)
    → flags % 2 ≡ 1
    → is_present (pae_entry has_nx phys flags) ≡ true
unfolding kept_flags
pae_entry-present has_nx phys flags odd =
    let mask : ℕ = if has_nx then 2 ^ 63 + flag_mask else flag_mask in
    let odd_mask : mask % 2 ≡ 1 = ground arith in
    ground (
      arith,
      odd,
      odd_mask,
      bit_or_step (phys % 2 ^ 32) (bit_and flags mask),
      bit_and_step flags mask,
    )

idx-IsOrdinary : (v : ℕ) → v < 0xFF800000 → IsOrdinary (pae_get_pdpt_idx v) (pae_get_pd_idx v)
idx-IsOrdinary v l =
    let (pp, pd, pt) = pae_idx_lem v (omega arith) in
    record { dir = omega (arith, pp); place = omega (arith, pd); other = omega (arith, pp, pd) }

-- Given four present page directories whose entries are each 0, or present and writable, of which
-- no two refer to the same table, the last four entries of the last directory referring to the
-- directories, and an allocator that, if the address has no page table yet, gives a page that is in
-- no use as a table, map with PAE of an address below the last 8 MiB succeeds. The address then
-- translates to the entry of the physical page, cut to 32 bits, with the flags that are kept, if
-- they include the present bit; every other page below the last 8 MiB translates as before, and the
-- directories are again of that kind.
pub map_pae-walk :
    {S : Type 0} (alloc : S → Option (ℕ × S)) (s s' : S) (page : ℕ) (mem : Tables) (has_nx : Bool)
    (pdpt : ℕ → ℕ) (virt phys flags : ℕ)
    → ((c : ℕ) → c < 4 → is_present (pdpt c) ≡ true)
    → virt < 0xFF800000
    → IsPaeRecursive (dirs pdpt) mem
    → (mem (dirs pdpt (pae_get_pdpt_idx virt)) (pae_get_pd_idx virt) ≡ 0
        → alloc s ≡ some (page, s'))
    → (mem (dirs pdpt (pae_get_pdpt_idx virt)) (pae_get_pd_idx virt) ≡ 0
        → IsPaeFresh page (dirs pdpt) mem)
    → (mem' : Tables) × (map_pae alloc has_nx pdpt virt phys flags (s, mem)
        ≡ some (
          if mem (dirs pdpt (pae_get_pdpt_idx virt)) (pae_get_pd_idx virt) == 0 then s' else s,
          mem',
        ))
      × (flags % 2 ≡ 1 → walk_pae pdpt mem' virt ≡ some (pae_entry has_nx phys flags))
      × ((v : ℕ)
          → v < 0xFF800000
          → v / 2 ^ 12 ≢ virt / 2 ^ 12
          → walk_pae pdpt mem' v ≡ walk_pae pdpt mem v)
      × IsPaeRecursive (dirs pdpt) mem'
unfolding map_pae
map_pae-walk alloc s s' page mem has_nx pdpt virt phys flags enabled low h gives fresh =
    let c : ℕ = pae_get_pdpt_idx virt in
    let i : ℕ = pae_get_pd_idx virt in
    let j : ℕ = pae_get_pt_idx virt in
    let e : ℕ = pae_entry has_nx phys flags in
    let (pp, pd, pt) = pae_idx_lem virt (omega arith) in
    let o = idx-IsOrdinary virt low in
    let small : j < 512 = omega (arith, pt) in
    let whole : virt % 2 ^ 32 ≡ virt = omega arith in
    let m = made-IsPaeMade (dirs pdpt) c i page mem h o fresh in
    let built : Tables = made (dirs pdpt) c i page mem in
    let allows = (m.recursive).tables.writable in
    let done = written_entry (dirs pdpt) c i j e mem built o m in
    let mem' : Tables = write_entry (frame_of (built (dirs pdpt c) i)) j e built in
    (
      mem',
      rw
          (
            whole,
            need_table_pae_lem alloc s s' page mem pdpt enabled c i o h gives fresh,
            store_table pdpt enabled built (m.recursive).present (m.recursive).itself
                (λ b p. allows 3 (508 + b) (omega arith) (omega arith) ((m.recursive).present b p))
                c i o.dir o.place m.there (allows c i o.dir o.place m.there) j e small,
          )
          refl,
      (λ odd.
          walk_pae-eq-entry_at pdpt enabled mem' virt (omega arith)
          ∙ done.written (pae_entry-present has_nx phys flags odd)),
      (λ v v_low differ.
          let (qp, qd, qt) = pae_idx_lem v (omega arith) in
          walk_pae-eq-entry_at pdpt enabled mem' v (omega arith)
          ∙ done.same (pae_get_pdpt_idx v) (pae_get_pd_idx v) (pae_get_pt_idx v)
              (idx-IsOrdinary v v_low)
              (λ (x, y, z). differ (omega (arith, x, y, z, pp, pd, pt, qp, qd, qt)))
          ∙ sym (walk_pae-eq-entry_at pdpt enabled mem v (omega arith))),
      done.recursive,
    )
