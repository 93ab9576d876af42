-- ===== src/Bitmap.antt =====
-- lib/ebl/include/bitmap.h: the bitmap macros and the two searches. The array is the memory that
-- the pointer leads to, a function from index to 32-bit word, since the macros check no bound.
pub mod Bits
pub mod Search
use Prim.Native.Nat.{bit_and, bit_or}
use liqui_dos.Common.{
  ℕ, zero, suc, ◌+◌, ◌-◌, ◌*◌, ◌/◌, ◌%◌, ◌^◌, ◌<◌, Bool, not, Option, none, some, ◌==◌,
  if◌then◌else◌,
}

abbrev pub Words : Type 0
Words = ℕ → ℕ

pub record Bitmap : Type 0 where
  pub length : ℕ
  pub bit_count : ℕ
  pub bitmap : Words

-- `~0U`
abbrev pub ones : ℕ
ones = 2 ^ 32 - 1

abbrev pub write_word : Words → ℕ → ℕ → Words
write_word a i v j = if j == i then v else a j

unfoldable pub setbit : Words → ℕ → Words
setbit a k = write_word a (k / 32) (bit_or (a (k / 32)) (2 ^ (k % 32)))

unfoldable pub clrbit : Words → ℕ → Words
clrbit a k = write_word a (k / 32) (bit_and (a (k / 32)) (ones - 2 ^ (k % 32)))

unfoldable pub tstbit : Words → ℕ → ℕ
tstbit a k = bit_and (a (k / 32)) (2 ^ (k % 32))

-- The macro where the source tests it.
abbrev pub is_set : Words → ℕ → Bool
is_set a k = not (tstbit a k == 0)

unfoldable pub getlength : ℕ → ℕ
getlength l = l / 32 + 1

-- A product of a size_t.
abbrev pub getbits : ℕ → ℕ
getbits l = l * 32 % 2 ^ 32

-- An int result as the word that a cast to size_t makes of it, and `none` for -1.
abbrev pub int_result : ℕ → Option ℕ
int_result p = if p % 2 ^ 32 == 2 ^ 32 - 1 then none else some (p % 2 ^ 32)

-- `while(_ptr < 32 && bitmap_tstbit(...)) _ptr++`, with `32 - _ptr` rounds left.
unfoldable pub scan_up : ℕ → Words → ℕ → ℕ → ℕ
scan_up zero a base p = p
scan_up (suc left) a base p =
    let rest = scan_up left a base (p + 1) in if is_set a ((p + base) % 2 ^ 32) then rest else p

-- The outer loop at word `i`, with `length - i` rounds left.
unfoldable pub firstz_loop : ℕ → Words → ℕ → Option ℕ
unfolding scan_up
firstz_loop zero a i = none
firstz_loop (suc left) a i =
    let rest = firstz_loop left a (i + 1) in
    if not (a i == ones) then int_result (scan_up 32 a (getbits i) 0 + getbits i) else rest

unfoldable pub firstz : Bitmap → Option ℕ
unfolding firstz_loop
firstz b = firstz_loop b.length b.bitmap 0

-- `while(_ptr > 0 && bitmap_tstbit(...)) _ptr--`
unfoldable pub scan_down : Words → ℕ → ℕ → ℕ
scan_down a base zero = zero
scan_down a base (suc p) =
    let rest = scan_down a base p in if is_set a ((p + base) % 2 ^ 32) then rest else suc p

unfoldable pub lastz_loop : Words → ℕ → Option ℕ
unfolding scan_down
lastz_loop a zero = none
lastz_loop a (suc i) =
    let rest = lastz_loop a i in
    if not (a i == ones) then int_result (scan_down a (getbits i) 0 + getbits i) else rest

unfoldable pub lastz : Bitmap → Option ℕ
unfolding lastz_loop
lastz b = lastz_loop b.bitmap b.length
