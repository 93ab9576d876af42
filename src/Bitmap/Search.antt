-- ===== src/Bitmap/Search.antt =====
-- bitmap_firstz and bitmap_lastz.
use liqui_dos.Common.{
  ◌^◌, refl, ℕ, zero, suc, ◌+◌, ◌-◌, ◌*◌, ◌/◌, ◌%◌, ◌≤◌, ◌<◌, ◌≡◌, ◌≢◌, inl, inr, sym, true, false,
  ap, ◌∙◌, arith, Option, none, some, ◌==◌, Bool-cases, ==_iff,
}
use mathlib.Core.Path.{subst}
use native.Mathlib.Decide.{dec_lt}
use liqui_dos.Common.Bits.{nth_bit_ext, nth_bit-ones, nth_bit}
use liqui_dos.Bitmap.{
  Words, Bitmap, ones, is_set, getbits, int_result, scan_up, scan_down, firstz_loop, firstz,
  lastz_loop, lastz,
}
use liqui_dos.Bitmap.Bits.{IsWords, bit, is_set-eq-bit}

-- Every bit of word `i` tests set.
abbrev IsFull : Words → ℕ → Type 0
IsFull a i = (p : ℕ) → p < 32 → is_set a (p + i * 32) ≡ true

set_of_ones : (a : Words) (i : ℕ) → a i ≡ ones → IsFull a i
set_of_ones a i e p h =
    let word : (p + i * 32) / 32 ≡ i = omega arith in
    let place : (p + i * 32) % 32 ≡ p = omega arith in
    is_set-eq-bit a (p + i * 32) ∙ rw (word, place, e) (rw (nth_bit-ones 32 p h))

-- The bits of the first `l` words.
abbrev pub bits_in : ℕ → ℕ
bits_in l = l * 32

getbits_lem : (i : ℕ) → bits_in i < 2 ^ 32 → getbits i ≡ bits_in i
getbits_lem i l = omega arith

int_result_lem : (p : ℕ) → p < 2 ^ 32 - 1 → int_result p ≡ some p
int_result_lem p l =
    let whole : p % 2 ^ 32 ≡ p = omega arith in
    let other : (p == 2 ^ 32 - 1) ≡ false = ground arith in rw (whole, other) refl

scan_up_lem :
    (left : ℕ) (a : Words) (base p : ℕ)
    → p + left + base ≤ 2 ^ 32
    → (p ≤ scan_up left a base p)
      × (scan_up left a base p ≤ p + left)
      × ((j : ℕ) → p ≤ j → j < scan_up left a base p → is_set a (j + base) ≡ true)
      × (scan_up left a base p < p + left → is_set a (scan_up left a base p + base) ≡ false)
unfolding scan_up
scan_up_lem zero a base p fits =
    (omega arith, omega arith, λ j h k. absurd (omega arith), λ h. absurd (omega arith))
scan_up_lem (suc left) a base p fits =
    let whole : (p + base) % 2 ^ 32 ≡ p + base = omega arith in
    elim (Bool-cases (is_set a (p + base))) [
      | inl hit ↦
          let rest = scan_up_lem left a base (p + 1) (omega arith) in
          rw (whole, hit)
            (
              omega (arith, rest.0),
              omega (arith, rest.1),
              (λ j h k. ground (arith, rest.2 j)),
              λ h. rest.3 (omega arith),
            )
      | inr miss ↦
          rw (whole, miss) (omega arith, omega arith, (λ j h k. absurd (omega arith)), λ h. miss)
    ]

-- A word with all its bits set is `~0U`.
ones_of_full : (a : Words) (i : ℕ) → IsWords a → IsFull a i → a i ≡ ones
ones_of_full a i w full = nth_bit_ext 32 (a i) ones (w i) (omega arith) λ k h.
    let word : (k + i * 32) / 32 ≡ i = omega arith in
    let place : (k + i * 32) % 32 ≡ k = omega arith in
    let bit1 : (bit a (k + i * 32) == 1) ≡ true = sym (is_set-eq-bit a (k + i * 32)) ∙ full k h in
    let same : nth_bit k (a i) ≡ 1 = rw (word, place) at ((==_iff _ 1).0 bit1) in
    same ∙ sym (nth_bit-ones 32 k h)

-- What the search for the first clear bit promises, from word `i` on.
abbrev pub IsFirstClear : Words → ℕ → ℕ → Option ℕ → Type 0
IsFirstClear a lo hi none = (j : ℕ) → lo ≤ j → j < hi → is_set a j ≡ true
IsFirstClear a lo hi (some k) =
    (lo ≤ k) × (k < hi) × (is_set a k ≡ false) × ((j : ℕ) → lo ≤ j → j < k → is_set a j ≡ true)

full_range :
    (a : Words) (i j : ℕ) → IsFull a i → bits_in i ≤ j → j < bits_in (i + 1) → is_set a j ≡ true
full_range a i j full lo hi =
    let e : j ≡ j - i * 32 + i * 32 = omega arith in rw e (full (j - i * 32) (omega arith))

module _ (a : Words) (w : IsWords a) where
  hit_word :
      (i hi : ℕ)
      → a i ≢ ones
      → bits_in (i + 1) ≤ hi
      → hi < 2 ^ 32
      → IsFirstClear a (bits_in i) hi (int_result (scan_up 32 a (bits_in i) 0 + bits_in i))
  hit_word i hi ne fits small =
      let scan = scan_up_lem 32 a (bits_in i) 0 (omega arith) in
      elim (dec_lt (scan_up 32 a (bits_in i) 0) 32) [
        | yes found ↦
            subst (IsFirstClear a (bits_in i) hi)
              (sym (int_result_lem (scan_up 32 a (bits_in i) 0 + bits_in i) (omega arith)))
              (
                omega arith,
                omega arith,
                scan.3 found,
                λ j l k.
                    let e : j ≡ j - i * 32 + i * 32 = omega arith in
                    rw e (scan.2 (j - i * 32) (omega arith) (omega arith)),
              )
        | no none_clear ↦
            absurd (ne (ones_of_full a i w (λ p h. scan.2 p (omega arith) (omega arith))))
      ]

  skip_word :
      (i hi : ℕ) (r : Option ℕ)
      → a i ≡ ones
      → bits_in (i + 1) ≤ hi
      → IsFirstClear a (bits_in (i + 1)) hi r
      → IsFirstClear a (bits_in i) hi r
  skip_word i hi none e fits rest =
      λ j lo l. ground (arith, rest j, full_range a i j (set_of_ones a i e))
  skip_word i hi (some k) e fits (lo, below, clear, before) = (
    omega arith,
    below,
    clear,
    λ j l h. ground (arith, before j, full_range a i j (set_of_ones a i e)),
  )

  firstz_loop_lem :
      (left i hi : ℕ)
      → bits_in (i + left) ≡ hi
      → hi < 2 ^ 32
      → IsFirstClear a (bits_in i) hi (firstz_loop left a i)
  unfolding firstz_loop
  firstz_loop_lem zero i hi e small = λ j lo h. absurd (omega arith)
  firstz_loop_lem (suc left) i hi e small = elim (Bool-cases (a i == ones)) [
    | inl full ↦ rw full (
        skip_word i hi _ ((==_iff _ _).0 full) (omega arith)
          (firstz_loop_lem left (i + 1) hi (omega arith) small))
    | inr free ↦
        rw (free, getbits_lem i (omega arith)) (hit_word i hi (ground arith) (omega arith) small)
  ]

-- On an array of 32-bit words with fewer than 2 ^ 32 bits, bitmap_firstz, cast to size_t as its
-- callers do, gives the lowest clear bit, and its result is -1 exactly where every bit is set.
pub firstz-IsFirstClear :
    (b : Bitmap)
    → IsWords b.bitmap
    → bits_in b.length < 2 ^ 32
    → IsFirstClear b.bitmap 0 (bits_in b.length) (firstz b)
unfolding firstz
firstz-IsFirstClear b w small =
    firstz_loop_lem b.bitmap w b.length 0 (bits_in b.length) (omega arith) small

lastz_loop_lem :
    (a : Words) (n i : ℕ)
    → i < n
    → a i ≢ ones
    → ((j : ℕ) → i < j → j < n → a j ≡ ones)
    → bits_in i < 2 ^ 32
    → lastz_loop a n ≡ some (bits_in i)
unfolding lastz_loop scan_down
lastz_loop_lem a zero i h ne later fits = absurd (omega arith)
lastz_loop_lem a (suc n) i h ne later fits = elim (dec_lt i n) [
  | yes below ↦
      rw ((==_iff _ _).1 (later n below (omega arith)))
        (lastz_loop_lem a n i below ne (λ j l u. later j l (omega arith)) fits)
  | no last ↦
      let same : n ≡ i = omega arith in
      let free : (a i == ones) ≡ false = ground arith in
      rw (same, free, getbits_lem i fits)
        (int_result_lem (0 + bits_in i) (omega arith) ∙ ap some (omega arith))
]

-- Where word `i` is the last that is not full, `bitmap_lastz`, cast to size_t, gives the first bit of
-- the word, whether it is set or not: with that bit set, the result is not a zeroth bit.
pub lastz-first_bit :
    (b : Bitmap) (i : ℕ)
    → i < b.length
    → b.bitmap i ≢ ones
    → ((j : ℕ) → i < j → j < b.length → b.bitmap j ≡ ones)
    → bits_in i < 2 ^ 32
    → lastz b ≡ some (i * 32)
unfolding lastz
lastz-first_bit b i h ne later fits = lastz_loop_lem b.bitmap b.length i h ne later fits
