-- ===== src/Common/Bits.antt =====
-- Laws of the native `bit_and` and `bit_or` at variables: the digit equations, single bits,
-- masks of low bits and sums of disjoint fields.
use Prim.Native.Nat.{
  ℕ, zero, suc, ◌+◌, ◌-◌, ◌*◌, ◌/◌, ◌%◌, ◌^◌, ◌≤◌, ◌<◌, min, max, bit_and, bit_or, digits, bitwise,
  bit_and-bitwise, bit_or-bitwise,
}
use mathlib.Core.Path.{◌≡◌, refl, ap, ◌∙◌}
use mathlib.Core.Logic.{◌≢◌}
use native.Mathlib.Nat.{
  pow-suc, mod-lt, mod-le, mod-eq_of_lt, div-add-mod, mul-add-mod_self_left, div-div-eq-div-mul,
}
use native.Mathlib.Decide.{dec_lt}
use native.Mathlib.Omega.{arith}

module _ (z : ℕ → ℕ) (f : ℕ → ℕ → ℕ) where
  one_more : (n a b : ℕ) → a ≤ n → digits z f (suc n) a b ≡ digits z f n a b
  one_more zero zero b h = refl
  one_more zero (suc a) b h = absurd (omega arith)
  one_more (suc n) zero b h = refl
  one_more (suc n) (suc a) b h =
      ap (λ high. high * 2 + f (suc a % 2) (b % 2)) (one_more n (suc a / 2) (b / 2) (omega arith))

  -- With at least as many rounds as the first number, the digits are all there.
  enough_rounds : (n a b : ℕ) → a ≤ n → digits z f n a b ≡ bitwise z f a b
  enough_rounds zero zero b h = refl
  enough_rounds zero (suc a) b h = absurd (omega arith)
  enough_rounds (suc n) a b h = elim (dec_lt a (suc n)) [
    | yes less ↦ one_more n a b (omega arith) ∙ enough_rounds n a b (omega arith)
    | no not_less ↦ let last : suc n ≡ a = omega arith in ap (λ k. digits z f k a b) last
  ]

  digit_step :
      ((b : ℕ) → z b ≡ z (b / 2) * 2 + f 0 (b % 2))
      → (a b : ℕ) → bitwise z f a b ≡ bitwise z f (a / 2) (b / 2) * 2 + f (a % 2) (b % 2)
  digit_step ended zero b = ended b
  digit_step ended (suc a) b =
      ap (λ high. high * 2 + f (suc a % 2) (b % 2))
        (enough_rounds a (suc a / 2) (b / 2) (omega arith))

-- The lowest digit of the result, and the digits above it.
pub bit_and_step : (a b : ℕ) → bit_and a b ≡ bit_and (a / 2) (b / 2) * 2 + min (a % 2) (b % 2)
bit_and_step a b =
    rw (bit_and-bitwise a b, bit_and-bitwise (a / 2) (b / 2))
      (digit_step (λ _. 0) min (λ n. omega arith) a b)

pub bit_or_step : (a b : ℕ) → bit_or a b ≡ bit_or (a / 2) (b / 2) * 2 + max (a % 2) (b % 2)
bit_or_step a b =
    rw (bit_or-bitwise a b, bit_or-bitwise (a / 2) (b / 2))
      (digit_step (λ n. n) max (λ n. omega arith) a b)

pub zero-bit_and : (b : ℕ) → bit_and 0 b ≡ 0
zero-bit_and b = bit_and-bitwise 0 b

pub zero-bit_or : (b : ℕ) → bit_or 0 b ≡ b
zero-bit_or b = bit_or-bitwise 0 b

-- Bit `k` of a number, as 0 or 1.
pub nth_bit : ℕ → ℕ → ℕ
nth_bit zero a = a % 2
nth_bit (suc k) a = nth_bit k (a / 2)

pub nth_bit_bound : (k a : ℕ) → nth_bit k a ≤ 1
unfolding nth_bit
nth_bit_bound zero a = omega arith
nth_bit_bound (suc k) a = nth_bit_bound k (a / 2)

pub nth_bit-zero : (k : ℕ) → nth_bit k 0 ≡ 0
unfolding nth_bit
nth_bit-zero zero = refl
nth_bit-zero (suc k) = nth_bit-zero k

pub nth_bit-bit_and : (k a b : ℕ) → nth_bit k (bit_and a b) ≡ min (nth_bit k a) (nth_bit k b)
unfolding nth_bit
nth_bit-bit_and zero a b = omega (arith, bit_and_step a b)
nth_bit-bit_and (suc k) a b =
    let half : bit_and a b / 2 ≡ bit_and (a / 2) (b / 2) = omega (arith, bit_and_step a b) in
    rw half (nth_bit-bit_and k (a / 2) (b / 2))

pub nth_bit-bit_or : (k a b : ℕ) → nth_bit k (bit_or a b) ≡ max (nth_bit k a) (nth_bit k b)
unfolding nth_bit
nth_bit-bit_or zero a b = omega (arith, bit_or_step a b)
nth_bit-bit_or (suc k) a b =
    let half : bit_or a b / 2 ≡ bit_or (a / 2) (b / 2) = omega (arith, bit_or_step a b) in
    rw half (nth_bit-bit_or k (a / 2) (b / 2))

half-pow : (k : ℕ) → 2 ^ suc k / 2 ≡ 2 ^ k
half-pow k = omega (arith, pow-suc 2 k)

pub nth_bit-pow_self : (k : ℕ) → nth_bit k (2 ^ k) ≡ 1
unfolding nth_bit
nth_bit-pow_self zero = refl
nth_bit-pow_self (suc k) = rw (half-pow k) (nth_bit-pow_self k)

pub nth_bit-pow_ne : (k j : ℕ) → k ≢ j → nth_bit k (2 ^ j) ≡ 0
unfolding nth_bit
nth_bit-pow_ne zero zero ne = absurd (ne refl)
nth_bit-pow_ne zero (suc j) ne = omega (arith, pow-suc 2 j)
nth_bit-pow_ne (suc k) zero ne = nth_bit-zero k
nth_bit-pow_ne (suc k) (suc j) ne = rw (half-pow j) (nth_bit-pow_ne k j (λ e. ne (ap suc e)))

digits-and_zero : (n a : ℕ) → digits (λ _. 0) min n a 0 ≡ 0
digits-and_zero zero a = refl
digits-and_zero (suc n) zero = refl
digits-and_zero (suc n) (suc a) = omega (arith, digits-and_zero n (suc a / 2))

pub bit_and-zero : (a : ℕ) → bit_and a 0 ≡ 0
bit_and-zero a = bit_and-bitwise a 0 ∙ digits-and_zero a a

digits-or_zero : (n a : ℕ) → a ≤ n → digits (λ b. b) max n a 0 ≡ a
digits-or_zero zero a h = omega arith
digits-or_zero (suc n) zero h = refl
digits-or_zero (suc n) (suc a) h = omega (arith, digits-or_zero n (suc a / 2) (omega arith))

pub bit_or-zero : (a : ℕ) → bit_or a 0 ≡ a
bit_or-zero a = bit_or-bitwise a 0 ∙ digits-or_zero a a (omega arith)

-- `a & (1 << k)`, the test of a single bit.
pub bit_and-pow : (k a : ℕ) → bit_and a (2 ^ k) ≡ nth_bit k a * 2 ^ k
unfolding nth_bit
bit_and-pow zero a = omega (arith, bit_and_step a 1, bit_and-zero (a / 2))
bit_and-pow (suc k) a =
    let step : bit_and a (2 ^ suc k) ≡ bit_and (a / 2) (2 ^ k) * 2 =
      omega (arith, bit_and_step a (2 ^ suc k), ap (bit_and (a / 2)) (half-pow k), pow-suc 2 k) in
    rw (step, bit_and-pow k (a / 2), pow-suc) (omega arith)

-- The complement in `w` bits, `~a`.
pub nth_bit-complement :
    (w k a : ℕ) → k < w → a < 2 ^ w → nth_bit k (2 ^ w - 1 - a) ≡ 1 - nth_bit k a
unfolding nth_bit
nth_bit-complement zero k a h l = absurd (omega arith)
nth_bit-complement (suc w) zero a h l = omega (arith, pow-suc 2 w)
nth_bit-complement (suc w) (suc k) a h l =
    let half : (2 ^ suc w - 1 - a) / 2 ≡ 2 ^ w - 1 - a / 2 = omega (arith, pow-suc 2 w) in
    rw half (nth_bit-complement w k (a / 2) (omega arith) (omega (arith, pow-suc 2 w)))

pub bit_and-le : (w a b : ℕ) → a < 2 ^ w → bit_and a b ≤ a
bit_and-le zero zero b h = omega (arith, zero-bit_and b)
bit_and-le zero (suc a) b h = absurd (omega arith)
bit_and-le (suc w) a b h =
    omega (arith, bit_and_step a b, bit_and-le w (a / 2) (b / 2) (omega (arith, pow-suc 2 w)))

-- A mask bounds the result.
pub bit_and-lt : (w a b : ℕ) → b < 2 ^ w → bit_and a b < 2 ^ w
bit_and-lt zero a b h =
    let none_left : b ≡ 0 = omega arith in rw (none_left, bit_and-zero a) (omega arith)
bit_and-lt (suc w) a b h = omega (
  arith,
  pow-suc 2 w,
  bit_and_step a b,
  bit_and-lt w (a / 2) (b / 2) (omega (arith, pow-suc 2 w)),
)

pub bit_or-lt : (w a b : ℕ) → a < 2 ^ w → b < 2 ^ w → bit_or a b < 2 ^ w
bit_or-lt zero zero b h k = omega (arith, zero-bit_or b)
bit_or-lt zero (suc a) b h k = absurd (omega arith)
bit_or-lt (suc w) a b h k = omega (
  arith,
  pow-suc 2 w,
  bit_or_step a b,
  bit_or-lt w (a / 2) (b / 2) (omega (arith, pow-suc 2 w)) (omega (arith, pow-suc 2 w)),
)

-- Two numbers of `w` bits with the same bits are equal.
pub nth_bit_ext :
    (w a b : ℕ) → a < 2 ^ w → b < 2 ^ w → ((k : ℕ) → k < w → nth_bit k a ≡ nth_bit k b) → a ≡ b
unfolding nth_bit
nth_bit_ext zero a b h k same = omega arith
nth_bit_ext (suc w) a b h k same = omega (
  arith,
  same 0 (omega arith),
  nth_bit_ext w (a / 2) (b / 2) (omega (arith, pow-suc 2 w)) (omega (arith, pow-suc 2 w))
      (λ j l. same (suc j) (omega arith)),
)

pub pow_pos : (w : ℕ) → 0 < 2 ^ w
pow_pos zero = omega arith
pow_pos (suc n) = omega (arith, pow-suc 2 n, pow_pos n)

half-ones : (k : ℕ) → (2 ^ suc k - 1) / 2 ≡ 2 ^ k - 1
half-ones k = omega (arith, pow-suc 2 k, pow_pos k)

pub nth_bit-ones : (w k : ℕ) → k < w → nth_bit k (2 ^ w - 1) ≡ 1
unfolding nth_bit
nth_bit-ones zero k h = absurd (omega arith)
nth_bit-ones (suc w) zero h = omega (arith, pow-suc 2 w, pow_pos w)
nth_bit-ones (suc w) (suc k) h = rw (half-ones w) (nth_bit-ones w k (omega arith))

mod-pow_suc : (k a : ℕ) → a % 2 ^ suc k ≡ (a / 2) % 2 ^ k * 2 + a % 2
mod-pow_suc k a = whole ∙ mod-eq_of_lt small
  where
    small : (a / 2) % 2 ^ k * 2 + a % 2 < 2 ^ suc k
    small = omega (arith, pow-suc 2 k, mod-lt (a / 2) (pow_pos k))

    parts : a ≡ 2 ^ suc k * (a / 2 / 2 ^ k) + ((a / 2) % 2 ^ k * 2 + a % 2)
    parts = rw pow-suc (omega (arith, div-add-mod (a / 2) (2 ^ k)))

    whole : a % 2 ^ suc k ≡ ((a / 2) % 2 ^ k * 2 + a % 2) % 2 ^ suc k
    whole = ap (λ n. n % 2 ^ suc k) parts ∙ mul-add-mod_self_left (2 ^ suc k) _ _

-- A mask of low bits, `a & ((1 << k) - 1)`.
pub bit_and-low : (k a : ℕ) → bit_and a (2 ^ k - 1) ≡ a % 2 ^ k
bit_and-low zero a = omega (arith, bit_and-zero a)
bit_and-low (suc k) a = omega (
  arith,
  bit_and_step a (2 ^ suc k - 1),
  ap (bit_and (a / 2)) (half-ones k),
  bit_and-low k (a / 2),
  mod-pow_suc k a,
  pow-suc 2 k,
  pow_pos k,
)

-- Fields that do not overlap are joined by `|` as by `+`.
pub bit_or-disjoint : (k x y : ℕ) → y < 2 ^ k → bit_or (x * 2 ^ k) y ≡ x * 2 ^ k + y
bit_or-disjoint zero x zero h = omega (arith, bit_or-zero (x * 1))
bit_or-disjoint zero x (suc y) h = absurd (omega arith)
bit_or-disjoint (suc k) x y h =
    let half : x * 2 ^ suc k / 2 ≡ x * 2 ^ k = rw pow-suc (omega arith) in
    let even : x * 2 ^ suc k % 2 ≡ 0 = rw pow-suc (omega arith) in
    let step : bit_or (x * 2 ^ suc k) y ≡ bit_or (x * 2 ^ k) (y / 2) * 2 + y % 2 =
      omega (arith, bit_or_step (x * 2 ^ suc k) y, ap (λ n. bit_or n (y / 2)) half) in
    let rest = bit_or-disjoint k x (y / 2) (omega (arith, pow-suc 2 k)) in
    step ∙ omega (arith, rest, half)

-- A mask of high bits, `a & ~((1 << k) - 1)`, rounds down.
pub bit_and_high :
    (w k a : ℕ) → k ≤ w → a < 2 ^ w → bit_and a (2 ^ w - 1 - (2 ^ k - 1)) ≡ a - a % 2 ^ k
bit_and_high zero k zero l h = omega (arith, zero-bit_and (2 ^ 0 - 1 - (2 ^ k - 1)))
bit_and_high zero k (suc a) l h = absurd (omega arith)
bit_and_high (suc w) zero a l h =
    ap (bit_and a) whole ∙ omega (arith, bit_and-low (suc w) a, mod-eq_of_lt h)
  where
    whole : 2 ^ suc w - 1 - (2 ^ 0 - 1) ≡ 2 ^ suc w - 1
    whole = omega arith
bit_and_high (suc w) (suc k) a l h = omega (
  arith,
  bit_and_step a (2 ^ suc w - 1 - (2 ^ suc k - 1)),
  ap (bit_and (a / 2)) half,
  bit_and_high w k (a / 2) (omega arith) (omega (arith, pow-suc 2 w)),
  mod-pow_suc k a,
  mod-le (a / 2) (2 ^ k),
  pow-suc 2 k,
  pow_pos k,
  pow-suc 2 w,
)
  where
    half : (2 ^ suc w - 1 - (2 ^ suc k - 1)) / 2 ≡ 2 ^ w - 1 - (2 ^ k - 1)
    half = omega (arith, pow-suc 2 w, pow-suc 2 k, pow_pos w, pow_pos k)

pub nth_bit_quotient : (k a : ℕ) → nth_bit k a ≡ a / 2 ^ k % 2
unfolding nth_bit
nth_bit_quotient zero a = omega arith
nth_bit_quotient (suc k) a =
    nth_bit_quotient k (a / 2)
    ∙ ap (λ n. n % 2)
        (div-div-eq-div-mul a 2 (2 ^ k) ∙ ap (λ n. a / n) (omega (arith, pow-suc 2 k)))
