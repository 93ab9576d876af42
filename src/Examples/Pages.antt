-- ===== src/Examples/Pages.antt =====
-- A page directory in frame 1 whose last entry refers to itself, and an allocator that gives the
-- page at 5000h.
use Prim.Native.Nat.{bit_and, bit_or}
use liqui_dos.Common.{
  ℕ, ◌+◌, ◌-◌, ◌*◌, ◌/◌, ◌%◌, ◌^◌, ◌<◌, ◌≡◌, ◌≢◌, refl, ◌&&◌, arith, Option, none, some, ltb, ◌==◌,
  if◌then◌else◌,
}
use liqui_dos.Paging.{get_pd_idx}
use liqui_dos.Paging.Laws.{get_pd_idx_lem}
use liqui_dos.Mmu.{Tables, walk, map, flag_mask}
use liqui_dos.Mmu.Table.{IsRecursive, IsFresh}
use liqui_dos.Mmu.Map.{map-walk}
use liqui_dos.Mmu.Init.{init, init-IsRecursive}

abbrev tables : Tables
tables f i = if f == 1 && i == 1023 then 0x1003 else 0

abbrev alloc : ℕ → Option (ℕ × ℕ)
alloc s = some (0x5000, s + 1)

tables-IsRecursive : IsRecursive 1024 1023 tables 1
tables-IsRecursive = record {
  tables = record {
    entries = λ i l. ground arith;
    writable = λ i l p. ground arith;
    apart = λ i j l k p q e. ground arith;
  };
  inside = omega arith;
  present = refl;
  itself = refl;
}

page-IsFresh : IsFresh 1024 0x5000 tables 1
page-IsFresh = record {
  aligned = omega arith;
  not_dir = omega arith;
  not_table = λ k l p. ground arith;
}

map-walk_example :
    (mem' : Tables) × (map alloc 1 0xC0000000 0x7000 3 (0, tables)
      ≡ some (if tables 1 (get_pd_idx 0xC0000000) == 0 then 1 else 0, mem'))
    × (3 % 2 ≡ 1
        → walk 1 mem' 0xC0000000 ≡ some (bit_or (0x7000 % 2 ^ 32) (bit_and (3 % 2 ^ 16) flag_mask)))
    × ((v : ℕ)
        → v < 2 ^ 32
        → get_pd_idx v ≢ 1023
        → v / 2 ^ 12 ≢ 0xC0000000 / 2 ^ 12
        → walk 1 mem' v ≡ walk 1 tables v)
    × IsRecursive 1024 1023 mem' 1
map-walk_example =
    map-walk alloc 0 1 0x5000 tables 1 0xC0000000 0x7000 3 (omega arith)
      (omega (arith, get_pd_idx_lem 0xC0000000)) tables-IsRecursive (λ e. refl) (λ e. omega arith)
      (λ e. page-IsFresh)

-- Pages from 5000h on.
abbrev pages : ℕ → Option (ℕ × ℕ)
pages s = some ((s + 5) * 2 ^ 12, s + 1)

init-IsRecursive_example :
    (mem' : Tables) × (init pages (0, tables) ≡ some (0x5000 / 2 ^ 12, 2, mem'))
    × IsRecursive 1024 1023 mem' (0x5000 / 2 ^ 12)
    × ((v : ℕ)
        → v < 2 ^ 32 - 2 ^ 22
        → walk (0x5000 / 2 ^ 12) mem' v
          ≡ (if ltb v (2 ^ 22) then some (v / 2 ^ 12 * 2 ^ 12 + 3) else none))
init-IsRecursive_example =
    init-IsRecursive pages 0 1 2 0x5000 0x6000 tables refl refl (omega arith) (omega arith)
      (omega arith) (omega arith) (omega arith)
