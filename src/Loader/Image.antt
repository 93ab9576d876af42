-- ===== src/Loader/Image.antt =====
-- load_segment of loader/x86/loader.cc over the page tables of loader/x86/mmu.cc without PAE.
use liqui_dos.Common.{
  ℕ, zero, suc, ◌+◌, ◌*◌, ◌/◌, ◌%◌, ◌^◌, ◌≤◌, ◌≡◌, refl, true, ap, ◌∙◌, arith, Option, some, ◌==◌,
  ==_refl,
}
use liqui_dos.Paging.{page_size}
use liqui_dos.Paging.Laws.{page_align_lem}
use liqui_dos.Elf.{Phdr}
use liqui_dos.Mmu.{Tables, map, ◌>>=◌}
use liqui_dos.Mmu.Table.{IsRecursive}
use liqui_dos.Mmu.Range.{Supplies, AreFresh, IsRange, IsRange-zero, IsRange-suc, map-IsRange}
use liqui_dos.Loader.{Machine, map_pages, load_segment, segment_flags, segment_size}

module _ {S : Type 0} (alloc : S → Option (ℕ × S)) (m : ℕ) (st : ℕ → S) (page : ℕ → ℕ)
    (supply : Supplies alloc m st page) (dir : ℕ) (machine : Machine (S × Tables))
    (maps : (v p flags : ℕ) (s : S × Tables)
      → machine.map v p flags s ≡ map alloc dir v p flags s) where
  map_pages-IsRange :
      (n k v p flags : ℕ) (mem : Tables)
      → k + n ≤ m
      → v % page_size ≡ 0
      → p % page_size ≡ 0
      → v + n * page_size ≤ 0xFFC00000
      → p + n * page_size ≤ 2 ^ 32
      → flags % 2 ≡ 1
      → IsRecursive 1024 1023 mem dir
      → AreFresh m k page mem dir
      → (k' : ℕ) × (mem' : Tables) × (map_pages machine n v p flags (st k, mem)
          ≡ some (st k', mem'))
        × (k' ≤ k + n)
        × IsRange n v p flags mem mem' dir
        × AreFresh m k' page mem' dir
  unfolding map_pages
  map_pages-IsRange zero k v p flags mem l v_page p_page v_high p_high odd h fresh =
      (k, mem, refl, omega arith, IsRange-zero v p flags mem dir h, fresh)
  map_pages-IsRange (suc n) k v p flags mem l v_page p_page v_high p_high odd h fresh =
      let whole : v % 2 ^ 32 ≡ v = omega arith in
      let (k1, mem1, done, few, first, fresh1) =
        map-IsRange alloc m st page supply dir k v p flags mem (omega arith) v_page p_page
          (omega arith) (omega arith) odd h fresh in
      let (k2, mem2, done', few', rest, fresh2) =
        map_pages-IsRange n k1 (v + page_size) (p + page_size) flags mem1 (omega (arith, few))
          (omega arith) (omega arith) (omega arith) (omega arith) odd first.recursive fresh1 in
      (
        k2,
        mem2,
        ap (λ o. o >>= map_pages machine n (v + page_size) (p + page_size) flags)
              (ap (λ x. machine.map x p flags (st k, mem)) whole
                ∙ maps v p flags (st k, mem)
                ∙ done)
            ∙ done',
        omega (arith, few, few'),
        IsRange-suc alloc m st page supply dir n v p flags mem mem1 mem2 v_page v_high first rest,
        fresh2,
      )

  -- Given a page directory whose entries are each 0, or present and writable, of which no two refer
  -- to the same table, and whose last entry refers to the directory itself, and an allocator that
  -- gives a page for each page of the segment, all different, below 4 GiB and in no use as tables,
  -- load_segment over map without PAE succeeds for a segment that is as long in the file as in
  -- memory and starts at a page, below the last 4 MiB, of an image at a page, below 4 GiB. Each
  -- address of the segment's pages then translates to the page of the image with the same distance
  -- from its start, with the flags of the segment that are kept, every other address outside the
  -- last 4 MiB translates as before, and the directory is again of that kind.
  pub load_segment-IsRange :
      (img : ℕ) (ph : Phdr) (k : ℕ) (mem : Tables)
      → ph.p_filesz ≡ ph.p_memsz
      → k + segment_size ph / page_size ≤ m
      → ph.p_vaddr % page_size ≡ 0
      → (ph.p_offset + img) % page_size ≡ 0
      → ph.p_vaddr + ph.p_memsz ≤ 0xFFC00000
      → ph.p_offset + img + ph.p_memsz ≤ 2 ^ 32
      → IsRecursive 1024 1023 mem dir
      → AreFresh m k page mem dir
      → (k' : ℕ) × (mem' : Tables) × (load_segment machine img ph (st k, mem) ≡ some (st k', mem'))
        × IsRange
            (segment_size ph / page_size)
            ph.p_vaddr
            (ph.p_offset + img)
            (segment_flags ph)
            mem
            mem'
            dir
        × AreFresh m k' page mem' dir
  unfolding load_segment
  load_segment-IsRange img ph k mem same l v_page p_page v_high p_high h fresh =
      let (whole, above, below) = page_align_lem 32 ph.p_memsz (omega arith) (omega arith) in
      let equal : (ph.p_filesz == ph.p_memsz) ≡ true = rw same (==_refl ph.p_memsz) in
      let (k', mem', done, few, range, fresh') =
        map_pages-IsRange (segment_size ph / page_size) k ph.p_vaddr (ph.p_offset + img)
          (segment_flags ph) mem l v_page p_page (omega (arith, whole, above, below))
          (omega (arith, whole, above, below)) (ground arith) h fresh in
      (k', mem', rw equal done, range, fresh')
