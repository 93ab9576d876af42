-- ===== src/BootAlloc/Single.antt =====
-- BootAllocator::allocate_single.
use liqui_dos.Common.{
  ℕ, ◌+◌, ◌*◌, ◌^◌, ◌≤◌, ◌<◌, ◌≡◌, inl, inr, refl, true, false, ◌||◌, arith, Option, none, some,
  leb, ◌==◌, Bool-cases,
}
use native.Mathlib.Decide.{dec_lt}
use liqui_dos.Bitmap.{is_set, firstz}
use liqui_dos.Bitmap.Bits.{IsWords, is_set-setbit, setbit-IsWords}
use liqui_dos.Bitmap.Search.{IsFirstClear, bits_in, firstz-IsFirstClear}
use liqui_dos.Paging.{page_size}
use liqui_dos.BootAlloc.{BootAllocator, allocate_single, update_all, take_ptr}

-- The words fit 32 bits, the pages fit the array, whose bits have 32-bit numbers, and the bits behind
-- the last page are set.
pub record IsBootAllocator (s : BootAllocator) : Type 0 where
  pub words : IsWords (s.alloc_map).bitmap
  pub fits : (s.alloc_map).bit_count ≤ bits_in (s.alloc_map).length
  pub small : bits_in (s.alloc_map).length < 2 ^ 32
  pub padded :
      (j : ℕ)
      → (s.alloc_map).bit_count ≤ j
      → j < bits_in (s.alloc_map).length
      → is_set (s.alloc_map).bitmap j ≡ true

-- Page `k` was free and is the one taken: its bit is set now, all others are as before.
pub record IsTaken (s : BootAllocator) (addr : ℕ) (s' : BootAllocator) (k : ℕ) : Type 0 where
  pub address : addr ≡ k * page_size
  pub below : k < (s.alloc_map).bit_count
  pub was_free : is_set (s.alloc_map).bitmap k ≡ false
  pub bits : (j : ℕ) → is_set (s'.alloc_map).bitmap j ≡ (j == k || is_set (s.alloc_map).bitmap j)
  pub next : s'.ptr ≡ k + 1
  pub same_count : (s'.alloc_map).bit_count ≡ (s.alloc_map).bit_count
  pub consistent : IsBootAllocator s'

-- No page is free.
abbrev pub IsFull : BootAllocator → Type 0
IsFull s = (j : ℕ) → j < (s.alloc_map).bit_count → is_set (s.alloc_map).bitmap j ≡ true

abbrev pub Outcome : BootAllocator → Option (ℕ × BootAllocator) → Type 0
Outcome s none = IsFull s
Outcome s (some (addr, s')) = (k : ℕ) × IsTaken s addr s' k

module _ (s : BootAllocator) (h : IsBootAllocator s) where
  taken :
      (k : ℕ)
      → k < (s.alloc_map).bit_count
      → is_set (s.alloc_map).bitmap k ≡ false
      → IsTaken s (take_ptr (record s { ptr = k })).0 (take_ptr (record s { ptr = k })).1 k
  unfolding take_ptr
  taken k below was_free = record {
    address = omega (arith, h.small, h.fits);
    below = below;
    was_free = was_free;
    bits = λ j. is_set-setbit (s.alloc_map).bitmap k j;
    next = omega (arith, h.small, h.fits);
    same_count = refl;
    consistent = record {
      words = setbit-IsWords k h.words;
      fits = h.fits;
      small = h.small;
      padded = λ j l u. ground (arith, h.padded j, is_set-setbit (s.alloc_map).bitmap k j);
    };
  }

  searched :
      (r : Option ℕ)
      → firstz s.alloc_map ≡ r
      → IsFirstClear (s.alloc_map).bitmap 0 (bits_in (s.alloc_map).length) r
      → Outcome s (elim (update_all s) [ none ↦ none | some s' ↦ some (take_ptr s') ])
  unfolding update_all
  searched none e all = rw e (λ j l. all j (omega arith) (omega (arith, h.fits)))
  searched (some k) e (lo, below, clear, before) = rw e (k, taken k inside clear)
    where
      inside : k < (s.alloc_map).bit_count
      inside = elim (dec_lt k (s.alloc_map).bit_count) [
        | yes l ↦ l
        | no out ↦ absurd (ground (arith, h.padded k))
      ]

  -- With bitmap words of 32 bits, fewer than 2 ^ 32 bits and the bits behind the last page set,
  -- allocate_single takes a free page of the bitmap, marks it, changes no other bit and keeps these
  -- conditions; it panics exactly where no page is free.
  pub allocate_single-Outcome : Outcome s (allocate_single s)
  unfolding allocate_single
  allocate_single-Outcome =
      elim (Bool-cases (is_set (s.alloc_map).bitmap s.ptr || leb (s.alloc_map).bit_count s.ptr)) [
        | inl search ↦ rw search (searched _ refl (firstz-IsFirstClear s.alloc_map h.words h.small))
        | inr direct ↦ rw direct (s.ptr, taken s.ptr (ground arith) (ground arith))
      ]
