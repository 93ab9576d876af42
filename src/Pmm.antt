-- ===== src/Pmm.antt =====
-- core/mm/pmm.cc: the current physical allocator and the class PhysicalAllocator, with the classes of
-- core/mm/pmm_node.cc and core/mm/bootalloc.cc behind it. `none` is a call through NULL, or the
-- allocator's own. The assertions on the allocator's type only print a message.
pub mod Pages
use mathlib.Core.Option
use liqui_dos.Common.{ℕ, ◌-◌, ◌^◌, Option, none, some, List}
use liqui_dos.Bitmap.{Bitmap}
use liqui_dos.PmmNode
use liqui_dos.PmmNode.{PmmNode, Arena, Answer}
use liqui_dos.PmmNode.Init.{add_arena}
use liqui_dos.BootAlloc
use liqui_dos.BootAlloc.{BootAllocator, Bafree}

-- PMM_TYPE_LIST, PMM_TYPE_BOOT and PMM_TYPE_OTHER
abbrev pub type_list : ℕ
type_list = 1

abbrev pub type_boot : ℕ
type_boot = 2

abbrev pub type_other : ℕ
type_other = 3

-- The virtual functions over the state `S`. `P` is what an argument `pages` points to, `Q` what
-- `page_to_physical` reads, and a call that allocates gives the count, the pages and the state.
pub record PhysicalAllocator (S P Q : Type 0) : Type 0 where
  pub add_arena : Option Arena → Option Bitmap → S → Option S
  pub page_to_physical : Q → S → ℕ
  pub allocate : ℕ → P → S → Option (ℕ × P × S)
  pub allocate_single : P → S → Option (ℕ × P × S)
  pub allocate_contiguous : ℕ → P → S → Option (ℕ × P × S)
  pub free : P → S → Option (ℕ × P × S)
  pub get_type : ℕ
  pub get_size : ℕ

-- The class's own functions, with pointers of 4 bytes.
unfoldable pub base_allocator : (S P Q : Type 0) → PhysicalAllocator S P Q
base_allocator S P Q = record {
  add_arena = λ arena bt s. some s;
  page_to_physical = λ page s. 2 ^ 64 - 1;
  allocate = λ sz pages s. some (0, pages, s);
  allocate_single = λ pages s. some (0, pages, s);
  allocate_contiguous = λ sz pages s. some (0, pages, s);
  free = λ pages s. some (0, pages, s);
  get_type = type_other;
  get_size = 4;
}

-- The list that `*pages` heads after the call.
unfoldable pub stored : List ℕ → Answer → ℕ × List ℕ × PmmNode
stored pages a = (a.ret, elim a.pages [ none ↦ pages | some ps ↦ ps ], a.node)

unfoldable pub list_allocator : PhysicalAllocator PmmNode (List ℕ) ℕ
list_allocator = record (base_allocator PmmNode (List ℕ) ℕ) {
  add_arena = λ arena bt s. some (add_arena s arena (Option.map (λ b. b.bitmap) bt));
  page_to_physical = λ page s. PmmNode.page_to_physical s page;
  allocate = λ sz pages s. Option.map (stored pages) (PmmNode.allocate s sz);
  allocate_single = λ pages s. Option.map (stored pages) (PmmNode.allocate_single s);
  allocate_contiguous = λ sz pages s. Option.map (stored pages) (PmmNode.allocate_contiguous s sz);
  free = λ pages s. Option.map (stored pages) (PmmNode.free s pages);
  get_type = type_list;
}

-- A `bafree_t` has 12 bytes: 8 of the address and 4 of the count.
unfoldable pub boot_allocator : PhysicalAllocator BootAllocator Bafree Bafree
boot_allocator = record (base_allocator BootAllocator Bafree Bafree) {
  add_arena = λ arena bt s. BootAlloc.add_arena s bt;
  page_to_physical = λ page s. BootAlloc.page_to_physical page;
  allocate_single = λ pages s.
      Option.map (λ r. (1, record pages { addr = r.0 }, r.1)) (BootAlloc.allocate_single s);
  free = λ pages s. some (1, pages, BootAlloc.free s pages);
  get_type = type_boot;
  get_size = 12;
}

-- The functions of the file: `allocator` is the static pointer, with `none` for NULL.
module _ {S P Q : Type 0} (allocator : Option (PhysicalAllocator S P Q)) where
  unfoldable pub add_to_allocator : Option Arena → Option Bitmap → S → Option S
  add_to_allocator arena bt s = elim allocator [ none ↦ none | some a ↦ a.add_arena arena bt s ]

  unfoldable pub alloc_pages : ℕ → P → S → Option (ℕ × P × S)
  alloc_pages cnt pages s = elim allocator [ none ↦ none | some a ↦ a.allocate cnt pages s ]

  unfoldable pub alloc_pages_contig : ℕ → P → S → Option (ℕ × P × S)
  alloc_pages_contig cnt pages s = elim allocator [
    | none ↦ none
    | some a ↦ a.allocate_contiguous cnt pages s
  ]

  unfoldable pub free_pages : P → S → Option (ℕ × P × S)
  free_pages pages s = elim allocator [ none ↦ none | some a ↦ a.free pages s ]

  unfoldable pub get_phys : Q → S → Option ℕ
  get_phys page s = elim allocator [ none ↦ none | some a ↦ some (a.page_to_physical page s) ]
