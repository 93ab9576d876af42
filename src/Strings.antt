-- ===== src/Strings.antt =====
-- lib/libc/string.c. Memory is a function from address to
-- byte. The int results are taken modulo 2 ^ 32. memcpy and memset are single CPU instructions
-- on this architecture, which leave what the loops of their other form leave.
pub mod Move
pub mod Compare
pub mod Equal
pub mod Length
pub mod Copy
use Prim.Native.Nat.{bit_and}
use mathlib.Core.Option
use liqui_dos.Common.{
  ℕ, zero, suc, ◌+◌, ◌-◌, ◌*◌, ◌%◌, ◌^◌, Bool, not, ◌&&◌, Option, none, some, ltb, ◌==◌,
  if◌then◌else◌,
}

abbrev pub Bytes : Type 0
Bytes = ℕ → ℕ

abbrev pub store : ℕ → ℕ → Bytes → Bytes
store a v m b = if b == a then v else m b

-- `u1 - u2` as an int
abbrev pub difference : ℕ → ℕ → ℕ
difference u1 u2 = (u1 + 2 ^ 32 - u2) % 2 ^ 32

unfoldable pub memcmp : ℕ → Bytes → ℕ → ℕ → ℕ
memcmp zero m p1 p2 = 0
memcmp (suc len) m p1 p2 =
    let rest = memcmp len m (p1 + 1) (p2 + 1) in
    if not (m p1 == m p2) then difference (m p1) (m p2) else rest

-- `while (len--) *d++ = *s++;`
unfoldable pub copy_up : ℕ → ℕ → ℕ → Bytes → Bytes
copy_up zero d s m = m
copy_up (suc len) d s m = copy_up len (d + 1) (s + 1) (store d (m s) m)

-- `while (len--) *lastd-- = *lasts--;`, with `len` bytes left.
unfoldable pub copy_down : ℕ → ℕ → ℕ → Bytes → Bytes
copy_down zero d s m = m
copy_down (suc len) d s m = copy_down len d s (store (d + len) (m (s + len)) m)

unfoldable pub memcpy : ℕ → ℕ → ℕ → Bytes → Bytes
unfolding copy_up
memcpy dest src len m = copy_up len dest src m

-- `while (len-- > 0) *ptr++ = c;`
unfoldable pub memset : ℕ → ℕ → ℕ → Bytes → Bytes
memset zero ptr c m = m
memset (suc len) ptr c m = memset len (ptr + 1) c (store ptr (c % 2 ^ 8) m)

unfoldable pub memmove : ℕ → ℕ → ℕ → Bytes → Bytes
unfolding copy_up copy_down
memmove dest src len m = if ltb dest src then copy_up len dest src m else copy_down len dest src m

unfoldable pub strncmp : ℕ → Bytes → ℕ → ℕ → ℕ
strncmp zero m s1 s2 = 0
strncmp (suc n) m s1 s2 =
    let rest = strncmp n m (s1 + 1) (s2 + 1) in
    if not (m s1 == m s2) then difference (m s1) (m s2) else (if m s1 == 0 then 0 else rest)

-- `none` is a loop that goes on.
unfoldable pub strcmp : ℕ → Bytes → ℕ → ℕ → Option ℕ
strcmp zero m str1 str2 = none
strcmp (suc fuel) m str1 str2 =
    let rest = strcmp fuel m (str1 + 1) (str2 + 1) in
    if not (m str1 == 0) && m str1 == m str2 then rest else some (difference (m str1) (m str2))

-- The outer option is the loop that goes on, the inner one NULL.
unfoldable pub strchr : ℕ → Bytes → ℕ → ℕ → Option (Option ℕ)
strchr zero m s c = none
strchr (suc fuel) m s c =
    let rest = strchr fuel m (s + 1) c in
    if m s == c % 2 ^ 8 then some (some s) else (if m s == 0 then some none else rest)

-- The end of the loop of strlen up to a word boundary, with `left` bytes to it.
pub data Scan : Type 0 where
  nul_at : ℕ → Scan
  aligned : ℕ → Scan

unfoldable pub align_scan : ℕ → Bytes → ℕ → Scan
align_scan zero m ptr = aligned ptr
align_scan (suc left) m ptr =
    let rest = align_scan left m (ptr + 1) in if m ptr == 0 then nul_at ptr else rest

abbrev pub longword_at : Bytes → ℕ → ℕ
longword_at m p = m p + m (p + 1) * 2 ^ 8 + m (p + 2) * 2 ^ 16 + m (p + 3) * 2 ^ 24

-- `(longword - lomagic) & ~longword & himagic`
unfoldable pub zero_bytes : ℕ → ℕ
zero_bytes w = bit_and (bit_and ((w + 2 ^ 32 - 0x01010101) % 2 ^ 32) (2 ^ 32 - 1 - w)) 0x80808080

-- The loop over words of 4 bytes gives the address of the NUL, `none` is a loop that goes on.
unfoldable pub word_scan : ℕ → Bytes → ℕ → Option ℕ
unfolding zero_bytes
word_scan zero m cp = none
word_scan (suc fuel) m cp =
    let rest = word_scan fuel m (cp + 4) in
    if not (zero_bytes (longword_at m cp) == 0)
    then (if m cp == 0
        then some cp
        else (if m (cp + 1) == 0
            then some (cp + 1)
            else (if m (cp + 2) == 0
                then some (cp + 2)
                else (if m (cp + 3) == 0 then some (cp + 3) else rest))))
    else rest

unfoldable pub strlen : ℕ → Bytes → ℕ → Option ℕ
unfolding align_scan word_scan
strlen fuel m str = elim (align_scan ((4 - str % 4) % 4) m str) [
  | nul_at p ↦ some (p - str)
  | aligned p ↦ Option.map (λ q. q - str) (word_scan fuel m p)
]

-- `none` is a loop that goes on.
unfoldable pub strcpy : ℕ → ℕ → ℕ → Bytes → Option Bytes
unfolding strlen memcpy
strcpy fuel dest src m = Option.map (λ n. memcpy dest src n m) (strlen fuel m src)

unfoldable pub strcat : ℕ → ℕ → ℕ → Bytes → Option Bytes
unfolding strlen strcpy
strcat fuel dest src m = elim (strlen fuel m dest) [
  | none ↦ none
  | some n ↦ strcpy fuel (dest + n) src m
]

-- The loop of strstr over the places where the text's first byte stands, with NULL as the inner
-- `none`.
unfoldable pub strstr_loop : ℕ → ℕ → Bytes → ℕ → ℕ → ℕ → Option (Option ℕ)
unfolding strchr strncmp
strstr_loop chars zero m p s2 len = none
strstr_loop chars (suc fuel) m p s2 len = elim (strchr chars m p (m s2)) [
  | none ↦ none
  | some none ↦ some none
  | some (some q) ↦
      let rest = strstr_loop chars fuel m (q + 1) s2 len in
      if strncmp len m q s2 == 0 then some (some q) else rest
]

unfoldable pub strstr : ℕ → ℕ → Bytes → ℕ → ℕ → Option (Option ℕ)
unfolding strlen strstr_loop
strstr chars fuel m s1 s2 = elim (strlen chars m s2) [
  | none ↦ none
  | some len ↦ strstr_loop chars fuel m s1 s2 len
]
