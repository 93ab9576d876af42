-- ===== src/Examples/Pmm.antt =====
-- PmmNode with one arena of two pages, both free.
use liqui_dos.Common.{length, ℕ, ◌≡◌, refl, true, false, arith, none, some, List, [], ◌∷◌}
use liqui_dos.PmmNode.{
  Arena, Page, Memory, PmmNode, is_occupied, allocate, free, allocate_contiguous,
}
use liqui_dos.PmmNode.Init.{add_arena}
use liqui_dos.PmmNode.Init.Prepared.{IsPrepared, add_arena-IsPrepared}
use liqui_dos.PmmNode.Invariant.{IsPmmNode}
use liqui_dos.PmmNode.Allocate.{
  with_list, pmm, answer, IsAllocated, allocate-IsAllocated, allocate-dry,
}
use liqui_dos.PmmNode.Free.{IsFreed, IsLent, freed, free-IsFreed}
use liqui_dos.PmmNode.Contiguous.{Outcome, allocate_contiguous-Outcome}
use liqui_dos.Pmm.{list_allocator, alloc_pages, free_pages}
use liqui_dos.Pmm.Pages.{free_pages-alloc_pages}

abbrev blank : Page
blank = record { flags = 0; ref = 0 }

abbrev memory : Memory
memory _ = blank

abbrev low : Arena
low = record {
  flags = 0;
  base = 0;
  size = 2;
  free = 2;
  priority = 1;
  pages = 0x1000;
  free_list = 0x1000 ∷ 0x1010 ∷ [];
}

abbrev busy : Page
busy = record { flags = 1; ref = 0 }

abbrev lent_memory : Memory
lent_memory _ = busy

abbrev dry : Arena
dry = record {
  flags = 0;
  base = 0;
  size = 2;
  free = 0;
  priority = 1;
  pages = 0x1000;
  free_list = [];
}

blank_idle : is_occupied blank ≡ false
unfolding is_occupied
blank_idle = refl

busy_occupied : is_occupied busy ≡ true
unfolding is_occupied
busy_occupied = refl

low-IsPmmNode : IsPmmNode (pmm (low ∷ []) memory)
low-IsPmmNode = record {
  arenas = (
    record { tracked = λ p. ground (arith, blank_idle); counted = refl; fits = omega arith },
    tt,
  );
  apart = (tt, tt);
}

dry-IsPmmNode : IsPmmNode (pmm (dry ∷ []) lent_memory)
dry-IsPmmNode = record {
  arenas = (
    record { tracked = λ p. ground (arith, busy_occupied); counted = refl; fits = omega arith },
    tt,
  );
  apart = (tt, tt);
}

allocate-IsAllocated_example :
    (got : List ℕ) × (n : ℕ) × (list : List ℕ) × (mem' : Memory) × (allocate
        (pmm (low ∷ []) memory)
        1
      ≡ some (answer got (pmm (with_list low n list ∷ []) mem')))
    × IsAllocated 1 low (with_list low n list) memory mem' got
    × IsPmmNode (pmm (with_list low n list ∷ []) mem')
allocate-IsAllocated_example =
    allocate-IsAllocated 1 low [] memory low-IsPmmNode (omega arith) (omega arith)

allocate-dry_example : allocate (pmm (dry ∷ []) lent_memory) 1 ≡ none
allocate-dry_example = allocate-dry 1 dry [] lent_memory dry-IsPmmNode (omega arith) refl

lent : IsLent (0x1000 ∷ []) (dry ∷ []) lent_memory
lent = record {
  distinct = λ q. ground arith;
  in_arena = λ q h. ground arith;
  occupied = λ q h. busy_occupied;
}

free-IsFreed_example :
    (arenas' : List Arena) × (mem' : Memory) × (free (pmm (dry ∷ []) lent_memory) (0x1000 ∷ [])
      ≡ some (freed 1 (pmm arenas' mem')))
    × IsFreed (0x1000 ∷ []) (dry ∷ []) lent_memory arenas' mem'
free-IsFreed_example = free-IsFreed 0x1000 [] (dry ∷ []) lent_memory dry-IsPmmNode lent

free_pages-alloc_pages_example :
    (got : List ℕ) × (s' : PmmNode) × (arenas' : List Arena) × (mem' : Memory) × (alloc_pages
        (some list_allocator)
        2
        []
        (pmm (low ∷ []) memory)
      ≡ some (length got, got, s'))
    × (free_pages (some list_allocator) got s' ≡ some (length got, [], pmm arenas' mem'))
    × IsPmmNode (pmm arenas' mem')
    × ((q : ℕ) → is_occupied (mem' q) ≡ is_occupied (memory q))
free_pages-alloc_pages_example =
    free_pages-alloc_pages 2 low [] memory [] low-IsPmmNode (omega arith) (omega arith)

allocate_contiguous-Outcome_example :
    Outcome 1 (low ∷ []) memory (allocate_contiguous (pmm (low ∷ []) memory) 1)
allocate_contiguous-Outcome_example =
    allocate_contiguous-Outcome 1 (low ∷ []) memory low-IsPmmNode (omega arith) (omega arith)

abbrev marks : ℕ → ℕ
marks _ = 1

add_arena-IsPrepared_example :
    (r : Arena × Memory) × (add_arena (pmm [] memory) (some dry) (some marks) ≡ pmm (r.0 ∷ []) r.1)
    × IsPrepared dry marks memory r
    × IsPmmNode (pmm (r.0 ∷ []) r.1)
add_arena-IsPrepared_example = add_arena-IsPrepared dry marks memory (omega arith) refl
