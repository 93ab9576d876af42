-- ===== src/Slab/Kmalloc/Power.antt =====
-- The power of two that kmalloc rounds a size up to.
use native.Mathlib.Nat.{pow-suc, pow-le-pow_right, mod-lt, div-add-mod}
use liqui_dos.Common.Bits.{pow_pos}
use liqui_dos.Common.{
  ℕ, zero, suc, ◌+◌, ◌-◌, ◌*◌, ◌/◌, ◌%◌, ◌^◌, ◌≤◌, ◌<◌, ◌≡◌, ◌≢◌, inl, inr, refl, ap, ◌∙◌, arith,
  leb, ◌==◌, if◌then◌else◌, Bool-cases,
}
use liqui_dos.Slab.Kmalloc.{clz, int_to_uint64, next_pow2l}

quotient_zero : (x m : ℕ) → 0 < m → x / m ≡ 0 → x < m
quotient_zero x m p z = grind (arith, div-add-mod x m, mod-lt x p)

quotient_pos : (x m : ℕ) → x / m ≢ 0 → m ≤ x
quotient_pos x m p = grind (arith, div-add-mod x m)

-- `clz` of a positive number leaves the place behind its highest bit.
clz_lem :
    (w x : ℕ) → 0 < x → x < 2 ^ w → (k : ℕ) × (clz w x + suc k ≡ w) × (2 ^ k ≤ x) × (x < 2 ^ suc k)
unfolding clz
clz_lem zero x p l = absurd (omega arith)
clz_lem (suc w) x p l = elim (Bool-cases (x / 2 ^ w == 0)) [
  | inl small ↦
      let (k, e, a, b) = clz_lem w x p (quotient_zero x (2 ^ w) (pow_pos w) (ground arith)) in
      (k, rw small (omega (arith, e)), a, b)
  | inr high ↦ (w, rw high (omega arith), quotient_pos x (2 ^ w) (ground arith), l)
]

-- The count of the shift, as the processor takes it.
shift_lem :
    (x c k : ℕ) → c + suc k ≡ 32 → 2 ^ k ≤ x - 1 → 0 < x → x ≤ 2 ^ 31 → (64 - c) % 32 ≡ suc k
shift_lem x c k e low p high = elim (Bool-cases (k == 31)) [
  | inl top ↦ let last : k ≡ 31 = ground arith in absurd (omega (arith, ap (λ (t : ℕ). 2 ^ t) last))
  | inr below ↦ let differ : k ≢ 31 = ground arith in omega (arith, e, differ)
]

-- The shift gives the least power of two that is not below a positive number up to 2 ^ 31.
shifted-IsLeast :
    (x : ℕ)
    → 0 < x
    → x ≤ 2 ^ 31
    → (k : ℕ) × (next_pow2l x ≡ int_to_uint64 (2 ^ k)) × (k ≤ 31) × (x ≤ 2 ^ k) × (2 ^ k < 2 * x)
unfolding next_pow2l
shifted-IsLeast x p l = elim (Bool-cases (x == 1)) [
  | inl one ↦ (0, rw one refl, omega arith, ground arith, ground arith)
  | inr more ↦
      let rest : (x + 2 ^ 64 - 1) % 2 ^ 64 % 2 ^ 32 ≡ x - 1 = ground arith in
      let (k, e, a, b) = clz_lem 32 (x - 1) (ground arith) (omega arith) in
      let shift = shift_lem x (clz 32 (x - 1)) k e a p l in
      let count : (64 - clz 32 ((x + 2 ^ 64 - 1) % 2 ^ 64 % 2 ^ 32)) % 32 ≡ suc k =
        ap (λ (t : ℕ). (64 - clz 32 t) % 32) rest ∙ shift in
      (
        suc k,
        rw more (ap (λ (t : ℕ). int_to_uint64 (2 ^ t)) count),
        omega (arith, count),
        omega (arith, b),
        omega (arith, a, pow-suc 2 k),
      )
]

-- For a positive number up to 2 ^ 31 there is a least power of two that is not below it. next_pow2l
-- gives it up to 2 ^ 30, and above that the int 2 ^ 31 with its sign extended to 64 bits, 2 ^ 64 -
-- 2 ^ 31; the low 32 bits, which kmalloc takes, are that power either way.
pub next_pow2l-IsLeast :
    (x : ℕ)
    → 0 < x
    → x ≤ 2 ^ 31
    → (k : ℕ) × (x ≤ 2 ^ k)
      × (2 ^ k < 2 * x)
      × (next_pow2l x ≡ (if leb x (2 ^ 30) then 2 ^ k else 2 ^ 64 - 2 ^ 31))
      × (next_pow2l x % 2 ^ 32 ≡ 2 ^ k)
next_pow2l-IsLeast x p l =
    let (k, e, top, a, b) = shifted-IsLeast x p l in
    elim (Bool-cases (k == 31)) [
      | inl last ↦
          let top_bit : k ≡ 31 = ground arith in
          let power : 2 ^ k ≡ 2 ^ 31 = ap (λ (t : ℕ). 2 ^ t) top_bit in
          (k, a, b, e ∙ ground (arith, power, b), ap (λ t. t % 2 ^ 32) e ∙ ground (arith, power))
      | inr below ↦
          let small : k ≤ 30 = ground (arith, top) in
          let low : 2 ^ k ≤ 2 ^ 30 = pow-le-pow_right (omega arith) small in
          (k, a, b, e ∙ ground (arith, low, a), ap (λ t. t % 2 ^ 32) e ∙ ground (arith, low))
    ]
