-- ===== src/BootMem/Alloc.antt =====
-- pmm_alloc_page and pmm_free_page.
use liqui_dos.Common.{
  ℕ, ◌+◌, ◌*◌, ◌/◌, ◌%◌, ◌^◌, ◌<◌, ◌≡◌, ◌≢◌, true, false, ◌||◌, arith, some, leb, ◌==◌,
}
use liqui_dos.Bitmap.{ones, is_set, setbit}
use liqui_dos.Bitmap.Bits.{is_set-setbit, is_set-clrbit}
use liqui_dos.Bitmap.Search.{lastz-first_bit}
use liqui_dos.Paging.{page_size, page_align_down}
use liqui_dos.Paging.Laws.{page_align_down_lem}
use liqui_dos.BootMem.{BootMem, take_ptr, alloc_page, free_page}

-- While the page at `_ptr` is free, the call takes it, marks it and no other, and steps down; and
-- giving the page's address back makes the bits what they were.
pub alloc_page-free_page :
    (s : BootMem)
    → is_set (s.alloc_map).bitmap s.ptr ≡ false
    → 1 < s.ptr
    → s.ptr < 2 ^ 52
    → (s' : BootMem) × (alloc_page s ≡ some (s.ptr * page_size, s'))
      × (s'.ptr + 1 ≡ s.ptr)
      × ((j : ℕ) → is_set (s'.alloc_map).bitmap j ≡ (j == s.ptr || is_set (s.alloc_map).bitmap j))
      × ((j : ℕ)
          → is_set ((free_page s' (s.ptr * page_size)).alloc_map).bitmap j
            ≡ is_set (s.alloc_map).bitmap j)
unfolding alloc_page free_page
alloc_page-free_page s clear high fits =
    let direct : leb s.ptr 1 ≡ false = ground arith in
    let address : s.ptr * page_size % 2 ^ 64 ≡ s.ptr * page_size = omega arith in
    let page : page_align_down 64 (s.ptr * page_size) / page_size ≡ s.ptr =
      omega (arith, page_align_down_lem 64 (s.ptr * page_size) (omega arith) (omega arith)) in
    (
      (take_ptr s).1,
      rw (clear, direct, address),
      omega arith,
      λ j. is_set-setbit (s.alloc_map).bitmap s.ptr j,
      λ j. rw page (
          ground (
            arith,
            clear,
            is_set-setbit (s.alloc_map).bitmap s.ptr j,
            is_set-clrbit (setbit (s.alloc_map).bitmap s.ptr) s.ptr j,
          )),
    )

-- Where the page at _ptr is taken and the first page of the last bitmap word that is not full is
-- allocated too and has a number below 2 ^ 32, pmm_alloc_page hands out the address of that page a
-- second time and no bit changes.
pub alloc_page-twice :
    (s : BootMem) (i : ℕ)
    → is_set (s.alloc_map).bitmap s.ptr ≡ true
    → i < (s.alloc_map).length
    → (s.alloc_map).bitmap i ≢ ones
    → ((j : ℕ) → i < j → j < (s.alloc_map).length → (s.alloc_map).bitmap j ≡ ones)
    → is_set (s.alloc_map).bitmap (i * 32) ≡ true
    → i * 32 < 2 ^ 32
    → (s' : BootMem) × (alloc_page s ≡ some (i * 32 * page_size, s'))
      × ((j : ℕ) → is_set (s'.alloc_map).bitmap j ≡ is_set (s.alloc_map).bitmap j)
unfolding alloc_page
alloc_page-twice s i busy h ne later taken fits =
    let search = lastz-first_bit s.alloc_map i h ne later fits in
    let address : i * 32 * page_size % 2 ^ 64 ≡ i * 32 * page_size = omega arith in
    (
      (take_ptr (record s { ptr = i * 32 })).1,
      rw (busy, search, address),
      λ j. ground (arith, taken, is_set-setbit (s.alloc_map).bitmap (i * 32) j),
    )
