-- ===== src/Mmu/Map.antt =====
-- map without PAE refines a change of one translation.
use liqui_dos.Common.{
  ℕ, ◌+◌, ◌*◌, ◌/◌, ◌%◌, ◌^◌, ◌<◌, ◌≡◌, ◌≢◌, inl, inr, refl, sym, true, ap, ◌∙◌, arith, Option,
  some, ◌==◌, if◌then◌else◌, Bool-cases,
}
use Prim.Native.Nat.{bit_and, bit_or}
use liqui_dos.Common.Bits.{bit_or-disjoint, bit_or_step, bit_and_step}
use liqui_dos.Paging.{get_virt, get_pd_idx, get_pt_idx}
use liqui_dos.Paging.Laws.{get_pd_idx_lem, get_pt_idx_lem, get_virt_lem}
use liqui_dos.Mmu.{
  Tables, frame_of, is_present, is_writable, write_entry, clear_frame, walk, walk_write, load,
  store, clear_page, page_dir_addr, flag_mask, need_table, map,
}
use liqui_dos.Mmu.Table.{
  entry_at, IsRecursive, IsFresh, made, changed, changed-IsChanged, made-IsMade,
}

pub walk-eq-entry_at :
    (dir : ℕ) (mem : Tables) (v : ℕ)
    → walk dir mem v ≡ entry_at dir mem (get_pd_idx v) (get_pt_idx v)
unfolding walk entry_at
walk-eq-entry_at dir mem v = refl

entry_at-some :
    (dir : ℕ) (mem : Tables) (i j : ℕ)
    → is_present (mem dir i) ≡ true
    → is_present (mem (frame_of (mem dir i)) j) ≡ true
    → entry_at dir mem i j ≡ some (mem (frame_of (mem dir i)) j)
unfolding entry_at
entry_at-some dir mem i j a b = rw (a, b) refl

module _ (mem : Tables) (dir : ℕ) (i : ℕ) (below : i < 1024)
    (present : is_present (mem dir 1023) ≡ true) (itself : frame_of (mem dir 1023) ≡ dir)
    (writable : is_writable (mem dir 1023) ≡ true) where
  -- The directory through its own last entry.
  walk_dir : walk dir mem (page_dir_addr + i * 4) ≡ some (mem dir 1023)
  walk_dir =
      let top : get_pd_idx (page_dir_addr + i * 4) ≡ 1023 =
        omega (arith, get_pd_idx_lem (page_dir_addr + i * 4)) in
      let low : get_pt_idx (page_dir_addr + i * 4) ≡ 1023 =
        omega (arith, get_pt_idx_lem (page_dir_addr + i * 4)) in
      walk-eq-entry_at dir mem (page_dir_addr + i * 4)
      ∙ rw (top, low)
          (entry_at-some dir mem 1023 1023 present (rw itself present)
            ∙ ap (λ f. some (mem f 1023)) itself)

  load_dir : load dir mem (page_dir_addr + i * 4) ≡ some (mem dir i)
  load_dir =
      let index : (page_dir_addr + i * 4) % 2 ^ 12 / 4 ≡ i = omega arith in
      rw (walk_dir, itself, index) refl

  store_dir : (w : ℕ) → store dir (page_dir_addr + i * 4) w mem ≡ some (write_entry dir i w mem)
  store_dir w =
      let top : get_pd_idx (page_dir_addr + i * 4) ≡ 1023 =
        omega (arith, get_pd_idx_lem (page_dir_addr + i * 4)) in
      let index : (page_dir_addr + i * 4) % 2 ^ 12 / 4 ≡ i = omega arith in
      rw (walk_dir, top, writable, itself, index) refl

  module _ (there : is_present (mem dir i) ≡ true) (allows : is_writable (mem dir i) ≡ true) where
    walk_table : (j : ℕ) → j < 1024 → walk dir mem (get_virt 1023 i + j * 4) ≡ some (mem dir i)
    walk_table j small =
        let v : get_virt 1023 i ≡ 1023 * 2 ^ 22 + i * 2 ^ 12 =
          get_virt_lem 1023 i (omega arith) below in
        let top : get_pd_idx (get_virt 1023 i + j * 4) ≡ 1023 =
          omega (arith, v, get_pd_idx_lem (get_virt 1023 i + j * 4)) in
        let low : get_pt_idx (get_virt 1023 i + j * 4) ≡ i =
          omega (arith, v, get_pt_idx_lem (get_virt 1023 i + j * 4)) in
        walk-eq-entry_at dir mem (get_virt 1023 i + j * 4)
        ∙ rw (top, low)
            (entry_at-some dir mem 1023 i present (rw itself there)
              ∙ ap (λ f. some (mem f i)) itself)

    write_table :
        (j : ℕ) → j < 1024 → walk_write dir mem (get_virt 1023 i + j * 4) ≡ some (mem dir i)
    write_table j small =
        let v : get_virt 1023 i ≡ 1023 * 2 ^ 22 + i * 2 ^ 12 =
          get_virt_lem 1023 i (omega arith) below in
        let top : get_pd_idx (get_virt 1023 i + j * 4) ≡ 1023 =
          omega (arith, v, get_pd_idx_lem (get_virt 1023 i + j * 4)) in
        rw (walk_table j small, top, writable, allows) refl

    store_table :
        (j w : ℕ)
        → j < 1024
        → store dir (get_virt 1023 i + j * 4) w mem
          ≡ some (write_entry (frame_of (mem dir i)) j w mem)
    store_table j w small =
        let index : (get_virt 1023 i + j * 4) % 2 ^ 12 / 4 ≡ j =
          omega (arith, get_virt_lem 1023 i (omega arith) below) in
        rw (write_table j small, index) refl

    clear_table :
        clear_page dir (get_virt 1023 i) mem ≡ some (clear_frame (frame_of (mem dir i)) mem)
    clear_table =
        let start : get_virt 1023 i ≡ get_virt 1023 i + 0 * 4 = omega arith in
        let w : walk_write dir mem (get_virt 1023 i) ≡ some (mem dir i) =
          ap (walk_write dir mem) start ∙ write_table 0 (omega arith) in
        rw w refl

module _ {S : Type 0} (alloc : S → Option (ℕ × S)) (s s' : S) (page : ℕ) (mem : Tables) (dir i : ℕ)
    (below : i < 1024) (other : i ≢ 1023) (h : IsRecursive 1024 1023 mem dir)
    (gives : mem dir i ≡ 0 → alloc s ≡ some (page, s')) (small : mem dir i ≡ 0 → page < 2 ^ 32)
    (fresh : mem dir i ≡ 0 → IsFresh 1024 page mem dir) where
  table_entry : mem dir i ≡ 0 → bit_or (page % 2 ^ 32) 3 ≡ page + 3
  table_entry empty =
      let aligned : page % 2 ^ 32 ≡ page / 2 ^ 12 * 2 ^ 12 =
        omega (arith, (fresh empty).aligned, small empty) in
      rw aligned (bit_or-disjoint 12 (page / 2 ^ 12) 3 (omega arith) ∙ omega (arith, aligned))

  allowed : is_writable (mem dir 1023) ≡ true
  allowed = (h.tables).writable 1023 h.inside h.present

  -- The state after the table is there: the allocator's where one was needed.
  need_table_lem :
      need_table alloc dir i (get_virt 1023 i) (s, mem)
      ≡ some (if mem dir i == 0 then s' else s, made dir i page mem)
  unfolding need_table made
  need_table_lem = elim (Bool-cases (mem dir i == 0)) [
    | inl empty ↦
        let none_there : mem dir i ≡ 0 = ground arith in
        let new = fresh none_there in
        let mem1 : Tables = write_entry dir i (page + 3) mem in
        let entry : mem1 dir i ≡ page + 3 = ground arith in
        let cleared : clear_page dir (get_virt 1023 i) mem1
            ≡ some (clear_frame (frame_of (page + 3)) mem1) =
          clear_table mem1 dir i below (ground (arith, h.present, other))
            (ground (arith, h.itself, other)) (ground (arith, allowed, other))
            (ground (arith, new.aligned)) (ground (arith, new.aligned))
          ∙ ap (λ e. some (clear_frame (frame_of e) mem1)) entry in
        rw
          (
            load_dir mem dir i below h.present h.itself allowed,
            gives none_there,
            table_entry none_there,
            store_dir mem dir i below h.present h.itself allowed (page + 3),
          )
          (rw (cleared, empty, made) refl)
    | inr old ↦ rw (load_dir mem dir i below h.present h.itself allowed) (rw (old, made) refl)
  ]

-- What `map` makes of the tables.
pub map-changed :
    {S : Type 0} (alloc : S → Option (ℕ × S)) (s s' : S) (page : ℕ) (mem : Tables)
    (dir virt phys flags : ℕ)
    → virt < 2 ^ 32
    → get_pd_idx virt ≢ 1023
    → IsRecursive 1024 1023 mem dir
    → (mem dir (get_pd_idx virt) ≡ 0 → alloc s ≡ some (page, s'))
    → (mem dir (get_pd_idx virt) ≡ 0 → page < 2 ^ 32)
    → (mem dir (get_pd_idx virt) ≡ 0 → IsFresh 1024 page mem dir)
    → map alloc dir virt phys flags (s, mem)
      ≡ some (
        if mem dir (get_pd_idx virt) == 0 then s' else s,
        changed dir
            (get_pd_idx virt)
            (get_pt_idx virt)
            page
            (bit_or (phys % 2 ^ 32) (bit_and (flags % 2 ^ 16) flag_mask))
            mem,
      )
unfolding map changed
map-changed alloc s s' page mem dir virt phys flags fits other h gives small fresh =
    let i : ℕ = get_pd_idx virt in
    let j : ℕ = get_pt_idx virt in
    let e : ℕ = bit_or (phys % 2 ^ 32) (bit_and (flags % 2 ^ 16) flag_mask) in
    let below : i < 1024 = omega (arith, get_pd_idx_lem virt) in
    let low : j < 1024 = omega (arith, get_pt_idx_lem virt) in
    let whole : virt % 2 ^ 32 ≡ virt = omega arith in
    let m = made-IsMade 1024 1023 i page mem dir h below other fresh in
    rw
      (
        whole,
        need_table_lem alloc s s' page mem dir i below other h gives small fresh,
        store_table (made dir i page mem) dir i below (m.recursive).present (m.recursive).itself
            ((m.recursive).tables.writable 1023 (m.recursive).inside (m.recursive).present) m.there
            ((m.recursive).tables.writable i below m.there) j e low,
        changed,
      )
      refl

-- The tables that `map` makes.
pub changed-walk :
    (page : ℕ) (mem : Tables) (dir virt phys flags : ℕ)
    → virt < 2 ^ 32
    → get_pd_idx virt ≢ 1023
    → IsRecursive 1024 1023 mem dir
    → (mem dir (get_pd_idx virt) ≡ 0 → IsFresh 1024 page mem dir)
    → let e : ℕ = bit_or (phys % 2 ^ 32) (bit_and (flags % 2 ^ 16) flag_mask) in
      let mem' : Tables = changed dir (get_pd_idx virt) (get_pt_idx virt) page e mem in
      (flags % 2 ≡ 1 → walk dir mem' virt ≡ some e)
      × ((v : ℕ)
          → v < 2 ^ 32
          → get_pd_idx v ≢ 1023
          → v / 2 ^ 12 ≢ virt / 2 ^ 12
          → walk dir mem' v ≡ walk dir mem v)
      × IsRecursive 1024 1023 mem' dir
changed-walk page mem dir virt phys flags fits other h fresh =
    let i : ℕ = get_pd_idx virt in
    let j : ℕ = get_pt_idx virt in
    let e : ℕ = bit_or (phys % 2 ^ 32) (bit_and (flags % 2 ^ 16) flag_mask) in
    let below : i < 1024 = omega (arith, get_pd_idx_lem virt) in
    let done = changed-IsChanged 1024 1023 i j page e mem dir h below other fresh in
    (
      (λ odd.
          walk-eq-entry_at dir (changed dir i j page e mem) virt
          ∙ done.written (
              ground (
                arith,
                odd,
                bit_or_step (phys % 2 ^ 32) (bit_and (flags % 2 ^ 16) flag_mask),
                bit_and_step (flags % 2 ^ 16) flag_mask,
              ))),
      (λ v v_fits v_other differ.
          walk-eq-entry_at dir (changed dir i j page e mem) v
          ∙ done.same (get_pd_idx v) (get_pt_idx v) (omega (arith, get_pd_idx_lem v)) v_other
              (λ (p, q). differ (
                omega (
                  arith,
                  p,
                  q,
                  get_pd_idx_lem v,
                  get_pt_idx_lem v,
                  get_pd_idx_lem virt,
                  get_pt_idx_lem virt,
                )))
          ∙ sym (walk-eq-entry_at dir mem v)),
      done.recursive,
    )

-- Given a page directory whose entries are each 0, or present and writable, of which no two refer
-- to the same table, and whose last entry refers to the directory itself, and an allocator that, if
-- the address has no page table yet, gives a page below 4 GiB that is in no use as a table, map
-- without PAE of an address outside the last 4 MiB succeeds. The address then translates to the
-- entry of the physical page with the flags that are kept, if they include the present bit; every
-- other page outside the last 4 MiB translates as before, and the directory is again of that kind.
pub map-walk :
    {S : Type 0} (alloc : S → Option (ℕ × S)) (s s' : S) (page : ℕ) (mem : Tables)
    (dir virt phys flags : ℕ)
    → virt < 2 ^ 32
    → get_pd_idx virt ≢ 1023
    → IsRecursive 1024 1023 mem dir
    → (mem dir (get_pd_idx virt) ≡ 0 → alloc s ≡ some (page, s'))
    → (mem dir (get_pd_idx virt) ≡ 0 → page < 2 ^ 32)
    → (mem dir (get_pd_idx virt) ≡ 0 → IsFresh 1024 page mem dir)
    → (mem' : Tables) × (map alloc dir virt phys flags (s, mem)
        ≡ some (if mem dir (get_pd_idx virt) == 0 then s' else s, mem'))
      × (flags % 2 ≡ 1
          → walk dir mem' virt ≡ some (bit_or (phys % 2 ^ 32) (bit_and (flags % 2 ^ 16) flag_mask)))
      × ((v : ℕ)
          → v < 2 ^ 32
          → get_pd_idx v ≢ 1023
          → v / 2 ^ 12 ≢ virt / 2 ^ 12
          → walk dir mem' v ≡ walk dir mem v)
      × IsRecursive 1024 1023 mem' dir
map-walk alloc s s' page mem dir virt phys flags fits other h gives small fresh =
    let (walks, same, recursive) = changed-walk page mem dir virt phys flags fits other h fresh in
    (
      _,
      map-changed alloc s s' page mem dir virt phys flags fits other h gives small fresh,
      walks,
      same,
      recursive,
    )
