-- ===== src/Pmm/Pages.antt =====
-- pmm::alloc_pages and pmm::free with the allocators behind them.
use liqui_dos.Common.{ℕ, ◌<◌, ◌≡◌, refl, ap, some, List, [], ◌∷◌, length}
use mathlib.Core.Option
use liqui_dos.PmmNode.{PmmNode, Arena, Memory, is_occupied}
use liqui_dos.PmmNode.Invariant.{IsPmmNode}
use liqui_dos.PmmNode.Allocate.{pmm}
use liqui_dos.PmmNode.Free.{free-allocate}
use liqui_dos.BootAlloc.{BootAllocator, Bafree}
use liqui_dos.Pmm.{list_allocator, boot_allocator, base_allocator, alloc_pages, free_pages, stored}

-- With the allocator over arenas, in a consistent state whose first arena has a free page, free gives
-- back every page that alloc_pages of a positive count stores in the list, and leaves the list
-- empty; which pages are occupied is as before, and the state is consistent.
pub free_pages-alloc_pages :
    (cnt : ℕ) (a : Arena) (tail : List Arena) (mem : Memory) (pages : List ℕ)
    → IsPmmNode (pmm (a ∷ tail) mem)
    → 0 < cnt
    → 0 < a.free
    → (got : List ℕ) × (s' : PmmNode) × (arenas' : List Arena) × (mem' : Memory) × (alloc_pages
          (some list_allocator)
          cnt
          pages
          (pmm (a ∷ tail) mem)
        ≡ some (length got, got, s'))
      × (free_pages (some list_allocator) got s' ≡ some (length got, [], pmm arenas' mem'))
      × IsPmmNode (pmm arenas' mem')
      × ((q : ℕ) → is_occupied (mem' q) ≡ is_occupied (mem q))
unfolding alloc_pages free_pages list_allocator stored
free_pages-alloc_pages cnt a tail mem pages h pos some_free =
    let (got, s', runs, (arenas', mem', back, consistent, same)) =
      free-allocate cnt a tail mem h pos some_free in
    (
      got,
      s',
      arenas',
      mem',
      ap (Option.map (stored pages)) runs,
      ap (Option.map (stored got)) back,
      consistent,
      same,
    )

-- With the boot allocator alloc_pages gives no page, whatever the check of the type prints.
alloc_pages-boot :
    (cnt : ℕ) (pages : Bafree) (s : BootAllocator)
    → alloc_pages (some boot_allocator) cnt pages s ≡ some (0, pages, s)
unfolding alloc_pages boot_allocator base_allocator
alloc_pages-boot cnt pages s = refl
