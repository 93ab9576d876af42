-- ===== src/Bitmap/Bits.antt =====
-- bitmap_setbit, bitmap_clrbit and bitmap_tstbit, bit by bit.
use Prim.Native.Nat.{bit_and, bit_or}
use native.Mathlib.Nat.{pow-le-pow_right}
use liqui_dos.Common.{
  ℕ, ◌-◌, ◌*◌, ◌/◌, ◌%◌, ◌^◌, ◌≤◌, ◌<◌, ◌≡◌, not, ◌&&◌, ◌||◌, arith, ◌==◌, if◌then◌else◌,
}
use liqui_dos.Common.Bits.{
  nth_bit, nth_bit_bound, nth_bit-bit_and, nth_bit-bit_or, nth_bit-pow_self, nth_bit-pow_ne,
  nth_bit-complement, bit_and-pow, bit_and-le, bit_or-lt, pow_pos,
}
use liqui_dos.Bitmap.{Words, ones, setbit, clrbit, tstbit, is_set}

-- Every word fits 32 bits.
abbrev pub IsWords : Words → Type 0
IsWords a = (i : ℕ) → a i < 2 ^ 32

-- Bit `k` of the array.
abbrev pub bit : Words → ℕ → ℕ
bit a k = nth_bit (k % 32) (a (k / 32))

pub bit_bound : (a : Words) (k : ℕ) → bit a k ≤ 1
bit_bound a k = nth_bit_bound (k % 32) (a (k / 32))

test_of_bit : (b p : ℕ) → b ≤ 1 → 0 < p → not (b * p == 0) ≡ (b == 1)
test_of_bit b p h pos = grind arith

-- The macro tests the bit.
pub is_set-eq-bit : (a : Words) (k : ℕ) → is_set a k ≡ (bit a k == 1)
unfolding tstbit
is_set-eq-bit a k =
    rw (bit_and-pow (k % 32) (a (k / 32)))
      (test_of_bit (bit a k) (2 ^ (k % 32)) (bit_bound a k) (pow_pos (k % 32)))

pub pow_lt_word : (k : ℕ) → 2 ^ (k % 32) < 2 ^ 32
pow_lt_word k =
    let small : 2 ^ (k % 32) ≤ 2 ^ 31 =
      pow-le-pow_right {n = 2} (omega arith) {j = 31} (omega arith) in
    omega arith

-- An index is its word and its place in the word.
same_index : (j k : ℕ) → j / 32 ≡ k / 32 → j % 32 ≡ k % 32 → j ≡ k
same_index j k p q = omega arith

pub setbit-IsWords : {a : Words} (k : ℕ) → IsWords a → IsWords (setbit a k)
unfolding setbit
setbit-IsWords {a} k h i =
    ground (arith, h i, bit_or-lt 32 (a (k / 32)) (2 ^ (k % 32)) (h (k / 32)) (pow_lt_word k))

pub clrbit-IsWords : {a : Words} (k : ℕ) → IsWords a → IsWords (clrbit a k)
unfolding clrbit
clrbit-IsWords {a} k h i =
    ground (arith, h i, h (k / 32), bit_and-le 32 (a (k / 32)) (ones - 2 ^ (k % 32)) (h (k / 32)))

nth_bit-set : (m p w : ℕ) → nth_bit m (bit_or w (2 ^ p)) ≡ (if m == p then 1 else nth_bit m w)
nth_bit-set m p w =
    ground
      (arith, nth_bit-bit_or m w (2 ^ p), nth_bit-pow_self p, nth_bit-pow_ne m p, nth_bit_bound m w)

nth_bit-clear :
    (m p w : ℕ)
    → m < 32
    → p < 32
    → 2 ^ p < 2 ^ 32
    → nth_bit m (bit_and w (ones - 2 ^ p)) ≡ (if m == p then 0 else nth_bit m w)
nth_bit-clear m p w hm hp small = ground (
  arith,
  nth_bit-bit_and m w (ones - 2 ^ p),
  nth_bit-complement 32 m (2 ^ p) hm small,
  nth_bit-pow_self p,
  nth_bit-pow_ne m p,
  nth_bit_bound m w,
)

pub bit-setbit : (a : Words) (k j : ℕ) → bit (setbit a k) j ≡ (if j == k then 1 else bit a j)
unfolding setbit
bit-setbit a k j = ground (arith, nth_bit-set (j % 32) (k % 32) (a (k / 32)), same_index j k)

pub bit-clrbit : (a : Words) (k j : ℕ) → bit (clrbit a k) j ≡ (if j == k then 0 else bit a j)
unfolding clrbit
bit-clrbit a k j = ground (
  arith,
  nth_bit-clear (j % 32) (k % 32) (a (k / 32)) (omega arith) (omega arith) (pow_lt_word k),
  same_index j k,
)

-- After `bitmap_setbit` at `k`, bit `k` tests set and every other bit tests as before.
pub is_set-setbit : (a : Words) (k j : ℕ) → is_set (setbit a k) j ≡ (j == k || is_set a j)
is_set-setbit a k j =
    ground (arith, is_set-eq-bit (setbit a k) j, is_set-eq-bit a j, bit-setbit a k j)

-- After `bitmap_clrbit` at `k`, bit `k` tests clear and every other bit tests as before.
pub is_set-clrbit : (a : Words) (k j : ℕ) → is_set (clrbit a k) j ≡ (not (j == k) && is_set a j)
is_set-clrbit a k j =
    ground (arith, is_set-eq-bit (clrbit a k) j, is_set-eq-bit a j, bit-clrbit a k j)
