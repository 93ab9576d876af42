-- ===== src/BootAlloc/Clear.antt =====
-- The byte by byte loop that frees pages.
use liqui_dos.Common.{
  ℕ, zero, suc, ◌+◌, ◌-◌, ◌*◌, ◌/◌, ◌%◌, ◌^◌, ◌<◌, ◌≡◌, Bool, true, ◌≤◌, not, ◌&&◌, arith, ltb, leb,
  ◌==◌,
}
use liqui_dos.Bitmap.{Words, is_set, clrbit}
use liqui_dos.Bitmap.Bits.{is_set-clrbit}
use liqui_dos.Paging.{page_size, page_align_down}
use liqui_dos.Paging.Laws.{page_align_down_lem}
use liqui_dos.BootAlloc.{BootAllocator, clear_bytes, last_byte, free}

-- Bit `j` is in the closed range.
abbrev pub within : ℕ → ℕ → ℕ → Bool
within lo hi j = leb lo j && leb j hi

page_of : (a : ℕ) → a < 2 ^ 64 → page_align_down 64 a / page_size ≡ a / page_size
page_of a h = omega (arith, page_align_down_lem 64 a (omega arith) h)

within_suc :
    (a left j : ℕ)
    → (not (within ((a + 1) / 4096) ((a + 1 + left) / 4096) j) && not (j == a / 4096))
      ≡ not (within (a / 4096) ((a + 1 + left) / 4096) j)
within_suc a left j = ground arith

-- `suc left` rounds from address `a` clear the bits of the pages that they touch, and no other.
pub is_set-clear_bytes :
    (left a : ℕ) (bits : Words) (j : ℕ)
    → a + left < 2 ^ 64
    → is_set (clear_bytes (suc left) a bits) j
      ≡ (not (within (a / page_size) ((a + left) / page_size) j) && is_set bits j)
unfolding clear_bytes
is_set-clear_bytes zero a bits j h =
    ground (arith, page_of a (omega arith), is_set-clrbit bits (page_align_down 64 a / page_size) j)
is_set-clear_bytes (suc left) a bits j h = ground (
  arith,
  page_of a (omega arith),
  is_set-clear_bytes left (a + 1) (clrbit bits (page_align_down 64 a / page_size)) j (omega arith),
  is_set-clrbit bits (page_align_down 64 a / page_size) j,
  within_suc a left j,
)

-- BootAllocator::free of n pages from page p on, where n is positive and at most 2 ^ 19 and the
-- addresses fit 64 bits, clears the bits of exactly these pages.
pub is_set-free :
    (s : BootAllocator) (p n j : ℕ)
    → 0 < n
    → n ≤ 2 ^ 19
    → (p + n) * page_size < 2 ^ 64
    → is_set ((free s (record { addr = p * page_size; pages = n })).alloc_map).bitmap j
      ≡ (not (leb p j && ltb j (p + n)) && is_set (s.alloc_map).bitmap j)
unfolding free last_byte
is_set-free s p n j pos few fits =
    let product : (n + 2 ^ 32 - 1) % 2 ^ 32 * page_size % 2 ^ 32 ≡ (n - 1) * page_size =
      omega arith in
    let low : ltb ((n - 1) * page_size) (2 ^ 31) ≡ true = ground arith in
    let rounds : (p * page_size + (n - 1) * page_size) % 2 ^ 64 + 1 - p * page_size
        ≡ suc ((n - 1) * page_size) =
      omega arith in
    let first : p * page_size / page_size ≡ p = omega arith in
    let last : (p * page_size + (n - 1) * page_size) / page_size ≡ p + n - 1 = omega arith in
    rw
      (
        product,
        low,
        rounds,
        is_set-clear_bytes ((n - 1) * page_size) (p * page_size) (s.alloc_map).bitmap j
            (omega arith),
        first,
        last,
      )
      (ground arith)
