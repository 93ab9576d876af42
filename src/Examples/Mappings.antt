-- ===== src/Examples/Mappings.antt =====
-- Mappings of whole ranges: an allocator that gives one page after the other from 5000h on, and
-- tables with a page directory in frame 1, or with PAE in the frames 1 to 4.
use liqui_dos.Common.{
  ℕ, ◌+◌, ◌-◌, ◌*◌, ◌/◌, ◌%◌, ◌^◌, ◌≤◌, ◌<◌, ◌≡◌, ◌≢◌, refl, true, false, ◌&&◌, arith, Option, none,
  some, List, [], ◌∷◌, ltb, leb, ◌==◌, if◌then◌else◌, length,
}
use liqui_dos.Paging.{page_size, page_align, page_align_down, pae_get_pdpt_idx, pae_get_pd_idx}
use liqui_dos.Paging.Laws.{page_align_lem}
use liqui_dos.BootMem.{MmapEntry}
use liqui_dos.Elf.{Phdr}
use liqui_dos.Mmu.{Tables, is_present, map}
use liqui_dos.Mmu.Table.{IsRecursive}
use liqui_dos.Mmu.Range.{Supplies, AreFresh, IsRange}
use liqui_dos.Mmu.Pae.{walk_pae, map_pae}
use liqui_dos.Mmu.Pae.Table.{IsPaeRecursive, IsPaeFresh}
use liqui_dos.Mmu.Pae.Access.{dirs}
use liqui_dos.Mmu.Pae.Map.{pae_entry, map_pae-walk}
use liqui_dos.Mmu.Pae.Init.{init_pae}
use liqui_dos.Mmu.Pae.Init.Recursive.{init_pae-IsPaeRecursive}
use liqui_dos.Loader.{Machine, load_segment, segment_flags, segment_size}
use liqui_dos.Loader.Image.{load_segment-IsRange}
use liqui_dos.Platform.{map_memory}
use liqui_dos.Platform.Pages.{available_pages, mapped_pages}
use liqui_dos.Platform.Linear.{IsLinear}
use liqui_dos.Platform.Mapping.{map_memory-IsLinear}

abbrev pages : ℕ → Option (ℕ × ℕ)
pages s = some ((s + 5) * 2 ^ 12, s + 1)

abbrev page : ℕ → ℕ
page k = (k + 5) * 2 ^ 12

abbrev same : ℕ → ℕ
same k = k

pages-Supplies : Supplies pages 8 same page
pages-Supplies = record {
  gives = λ k l. ground arith;
  small = λ k l. omega arith;
  apart = λ k l a b e. omega (arith, e);
}

abbrev tables : Tables
tables f i = if f == 1 && i == 1023 then 0x1003 else 0

tables-IsRecursive : IsRecursive 1024 1023 tables 1
tables-IsRecursive = record {
  tables = record {
    entries = λ i l. ground arith;
    writable = λ i l p. ground arith;
    apart = λ i j l k p q e. ground arith;
  };
  inside = omega arith;
  present = refl;
  itself = refl;
}

tables-AreFresh : AreFresh 8 0 page tables 1
tables-AreFresh = record {
  each = λ l a b. record {
    aligned = omega arith;
    not_dir = omega arith;
    not_table = λ k m p. ground arith;
  };
}

abbrev machine : Machine (ℕ × Tables)
machine = record {
  map = λ v p flags s. map pages 1 v p flags s;
  alloc_page = λ s. none;
  memset = λ a c n s. none;
  memcpy = λ d a n s. none;
}

abbrev segment : Phdr
segment = record {
  p_type = 1;
  p_offset = 0x1000;
  p_vaddr = 0xE0100000;
  p_paddr = 0;
  p_filesz = 0x1800;
  p_memsz = 0x1800;
  p_flags = 5;
  p_align = 0x1000;
}

load_segment-IsRange_example :
    (k' : ℕ) × (mem' : Tables) × (load_segment machine 0x200000 segment (0, tables)
      ≡ some (k', mem'))
    × IsRange
        (segment_size segment / page_size)
        0xE0100000
        0x201000
        (segment_flags segment)
        tables
        mem'
        1
    × AreFresh 8 k' page mem' 1
load_segment-IsRange_example =
    load_segment-IsRange pages 8 same page pages-Supplies 1 machine (λ v p flags s. refl) 0x200000
      segment 0 tables refl (omega (arith, page_align_lem 32 0x1800 (omega arith) (omega arith)))
      refl refl (omega arith) (omega arith) tables-IsRecursive tables-AreFresh

abbrev areas : List MmapEntry
areas = record { addr = 0x100800; len = 0x3000; kind = 1 } ∷ []

areas_few : 0 + length (mapped_pages 0 areas) ≤ 8
unfolding available_pages page_align page_align_down
areas_few = omega arith

map_memory-IsLinear_example :
    (k' : ℕ) × (mem' : Tables) × (top' : ℕ) × (map_memory (map pages 1) false areas 0 0 (0, tables)
      ≡ some (0 + length (mapped_pages 0 areas) * page_size, top', (k', mem')))
    × IsLinear 0 (mapped_pages 0 areas) tables mem' 1
    × AreFresh 8 k' page mem' 1
map_memory-IsLinear_example =
    map_memory-IsLinear pages 8 same page pages-Supplies 1 areas 0 0 0 tables (omega arith, tt) refl
      (omega arith) areas_few tables-IsRecursive tables-AreFresh

-- The page directories in the frames 1 to 4.
abbrev pdpt : ℕ → ℕ
pdpt c = (c + 1) * 2 ^ 12 + 1

abbrev pae_tables : Tables
pae_tables f i = if f == 4 && (leb 508 i && ltb i 512) then (i - 507) * 2 ^ 12 + 3 else 0

pae_tables-IsPaeRecursive : IsPaeRecursive (dirs pdpt) pae_tables
pae_tables-IsPaeRecursive = record {
  tables = record {
    entries = λ c i l m. ground arith;
    writable = λ c i l m p. ground arith;
    apart = λ c i b j l m p q r s e. ground arith;
  };
  present = λ c l. ground arith;
  itself = λ c l. ground arith;
}

pae_page-IsPaeFresh : IsPaeFresh 0x9000 (dirs pdpt) pae_tables
pae_page-IsPaeFresh = record {
  aligned = refl;
  not_dir = λ c l. omega arith;
  not_table = λ c i l m p. ground arith;
}

abbrev pae_alloc : ℕ → Option (ℕ × ℕ)
pae_alloc s = some (0x9000, s + 1)

map_pae-walk_example :
    (mem' : Tables) × (map_pae pae_alloc true pdpt 0xC0000000 0x7000 3 (0, pae_tables)
      ≡ some (
        if pae_tables (dirs pdpt (pae_get_pdpt_idx 0xC0000000)) (pae_get_pd_idx 0xC0000000) == 0
            then 1
            else 0,
        mem',
      ))
    × (3 % 2 ≡ 1 → walk_pae pdpt mem' 0xC0000000 ≡ some (pae_entry true 0x7000 3))
    × ((v : ℕ)
        → v < 0xFF800000
        → v / 2 ^ 12 ≢ 0xC0000000 / 2 ^ 12
        → walk_pae pdpt mem' v ≡ walk_pae pdpt pae_tables v)
    × IsPaeRecursive (dirs pdpt) mem'
map_pae-walk_example =
    map_pae-walk pae_alloc 0 1 0x9000 pae_tables true pdpt 0xC0000000 0x7000 3 (λ c l. ground arith)
      (omega arith) pae_tables-IsPaeRecursive (λ e. refl) (λ e. pae_page-IsPaeFresh)

few-Supplies : Supplies pages 6 same page
few-Supplies = record {
  gives = λ k l. ground arith;
  small = λ k l. omega arith;
  apart = λ k l a b e. omega (arith, e);
}

init_pae-IsPaeRecursive_example :
    (table : ℕ → ℕ) × (mem' : Tables) × (init_pae pages (0, tables) ≡ some (table, 6, mem'))
    × ((c : ℕ) → c < 4 → is_present (table c) ≡ true)
    × IsPaeRecursive (dirs table) mem'
    × ((v : ℕ)
        → v < 0xFF800000
        → walk_pae table mem' v ≡ (if ltb v (2 ^ 22) then some (v / 2 ^ 12 * 2 ^ 12 + 3) else none))
init_pae-IsPaeRecursive_example =
    init_pae-IsPaeRecursive pages same page tables few-Supplies (λ k l. omega arith)
