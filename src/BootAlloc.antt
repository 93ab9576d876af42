-- ===== src/BootAlloc.antt =====
-- core/mm/bootalloc.cc: the kernel's boot allocator over the loader's bitmap (class BootAllocator,
-- in its ALLOCATE_FIRST form).
pub mod Clear
pub mod Single
use liqui_dos.Common.{
  ℕ, zero, suc, ◌+◌, ◌-◌, ◌*◌, ◌/◌, ◌%◌, ◌^◌, ◌||◌, Option, none, some, ltb, leb, ◌==◌,
  if◌then◌else◌,
}
use liqui_dos.Bitmap.{Words, Bitmap, setbit, clrbit, is_set, firstz}
use liqui_dos.Paging.{page_size, page_align_down}

pub record BootAllocator : Type 0 where
  pub alloc_map : Bitmap
  pub ptr : ℕ

-- `bafree_t`
pub record Bafree : Type 0 where
  pub addr : ℕ
  pub pages : ℕ

unfoldable pub page_to_physical : Bafree → ℕ
page_to_physical b = b.addr

-- `none` is the panic.
unfoldable pub update_all : BootAllocator → Option BootAllocator
update_all s = elim (firstz s.alloc_map) [ none ↦ none | some k ↦ some (record s { ptr = k }) ]

abbrev pub with_bits : Bitmap → Words → Bitmap
with_bits b a = record b { bitmap = a }

-- The allocation at `_ptr`, after the search.
unfoldable pub take_ptr : BootAllocator → ℕ × BootAllocator
take_ptr s = (
  s.ptr * page_size % 2 ^ 64,
  record {
    alloc_map = with_bits s.alloc_map (setbit (s.alloc_map).bitmap s.ptr);
    ptr = (s.ptr + 1) % 2 ^ 64;
  },
)

-- The address stored through the argument, and the new state.
unfoldable pub allocate_single : BootAllocator → Option (ℕ × BootAllocator)
unfolding update_all take_ptr
allocate_single s =
    if is_set (s.alloc_map).bitmap s.ptr || leb (s.alloc_map).bit_count s.ptr
    then elim (update_all s) [ none ↦ none | some s' ↦ some (take_ptr s') ]
    else some (take_ptr s)

-- `none` as the bitmap is a NULL argument; a panic gives `none`.
unfoldable pub add_arena : BootAllocator → Option Bitmap → Option BootAllocator
unfolding update_all
add_arena s none = some s
add_arena s (some bt) = update_all (record s { alloc_map = bt })

-- `for(a = address; a <= last; a++)` with `last + 1 - a` rounds left.
unfoldable pub clear_bytes : ℕ → ℕ → Words → Words
clear_bytes zero a bits = bits
clear_bytes (suc left) a bits =
    clear_bytes left (a + 1) (clrbit bits (page_align_down 64 a / page_size))

-- The last address of the loop: `pages * ARCH_PAGE_SIZE`, after `pages--`, is a product of ints, whose
-- sign is extended to 64 bits.
unfoldable pub last_byte : ℕ → ℕ → ℕ
last_byte addr pages =
    let product = (pages + 2 ^ 32 - 1) % 2 ^ 32 * page_size % 2 ^ 32 in
    (addr + (if ltb product (2 ^ 31) then product else product + 2 ^ 64 - 2 ^ 32)) % 2 ^ 64

unfoldable pub free : BootAllocator → Bafree → BootAllocator
unfolding clear_bytes last_byte
free s b = record s {
  alloc_map =
      with_bits s.alloc_map
        (clear_bytes (last_byte b.addr b.pages + 1 - b.addr) b.addr (s.alloc_map).bitmap);
}
