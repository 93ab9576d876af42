-- ===== src/Strings/Length.antt =====
-- Lemmas on the word-wise strlen of lib/libc/string.c.
use Prim.Native.Nat.{bit_and}
use native.Mathlib.Decide.{dec_lt}
use liqui_dos.Common.Bits.{nth_bit, nth_bit-bit_and, nth_bit-zero, nth_bit_quotient}
use liqui_dos.Strings.Compare.{IsBytes}
use liqui_dos.Strings.{Bytes, nul_at, aligned, align_scan, zero_bytes, word_scan, strlen}
use liqui_dos.Common.{
  ℕ, zero, suc, ◌+◌, ◌-◌, ◌*◌, ◌/◌, ◌%◌, ◌^◌, ◌≤◌, ◌<◌, ◌≡◌, ◌≢◌, ◌⊎◌, inl, inr, refl, sym, false,
  ap, ◌∙◌, arith, some, ◌==◌,
}

-- A bit that three numbers share.
shared_bit :
    (k x y z : ℕ)
    → nth_bit k x ≡ 1
    → nth_bit k y ≡ 1
    → nth_bit k z ≡ 1
    → bit_and (bit_and x y) z ≢ 0
shared_bit k x y z p q r e =
    let zero_bit : nth_bit k (bit_and (bit_and x y) z) ≡ 0 = ap (nth_bit k) e ∙ nth_bit-zero k in
    grind (arith, nth_bit-bit_and k (bit_and x y) z, nth_bit-bit_and k x y)

bit_at : (k x : ℕ) → x / 2 ^ k % 2 ≡ 1 → nth_bit k x ≡ 1
bit_at k x e = nth_bit_quotient k x ∙ e

-- A word with a zero byte passes the test: the lowest such byte leaves its highest bit.
zero_bytes-zero :
    (b0 b1 b2 b3 : ℕ)
    → b0 < 256
    → b1 < 256
    → b2 < 256
    → b3 < 256
    → (b0 ≡ 0) ⊎ (b1 ≡ 0) ⊎ (b2 ≡ 0) ⊎ (b3 ≡ 0)
    → zero_bytes (b0 + b1 * 2 ^ 8 + b2 * 2 ^ 16 + b3 * 2 ^ 24) ≢ 0
unfolding zero_bytes
zero_bytes-zero b0 b1 b2 b3 l0 l1 l2 l3 some_zero =
    let w : ℕ = b0 + b1 * 2 ^ 8 + b2 * 2 ^ 16 + b3 * 2 ^ 24 in
    let x : ℕ = (w + 2 ^ 32 - 0x01010101) % 2 ^ 32 in
    let y : ℕ = 2 ^ 32 - 1 - w in
    elim (dec_lt 0 b0) [
      | no z ↦
          shared_bit 7 x y 0x80808080 (bit_at 7 x (omega arith)) (bit_at 7 y (omega arith))
            (bit_at 7 0x80808080 refl)
      | yes p0 ↦ elim (dec_lt 0 b1) [
        | no z ↦
            shared_bit 15 x y 0x80808080 (bit_at 15 x (omega arith)) (bit_at 15 y (omega arith))
              (bit_at 15 0x80808080 refl)
        | yes p1 ↦ elim (dec_lt 0 b2) [
          | no z ↦
              shared_bit 23 x y 0x80808080 (bit_at 23 x (omega arith)) (bit_at 23 y (omega arith))
                (bit_at 23 0x80808080 refl)
          | yes p2 ↦
              shared_bit 31 x y 0x80808080 (bit_at 31 x (omega arith)) (bit_at 31 y (omega arith))
                (bit_at 31 0x80808080 refl)
        ]
      ]
    ]

-- The first NUL from `p` on is the one at `p + n`.
pub record IsText (m : Bytes) (p n : ℕ) : Type 0 where
  pub before : (i : ℕ) → i < n → m (p + i) ≢ 0
  pub nul : m (p + n) ≡ 0

pub moved : (m : Bytes) (p q n k j : ℕ) → IsText m p n → q ≡ p + k → n ≡ k + j → IsText m q j
moved m p q n k j h e l = record {
  before = λ i u z. h.before (k + i) (omega (arith, l)) (ap m (omega (arith, e)) ∙ z);
  nul = ap m (omega (arith, e, l)) ∙ h.nul;
}

word_scan_lem :
    (fuel : ℕ) (m : Bytes) (cp n : ℕ)
    → IsBytes m
    → IsText m cp n
    → n < fuel
    → word_scan fuel m cp ≡ some (cp + n)
unfolding word_scan
word_scan_lem zero m cp n bytes h l = absurd (omega arith)
word_scan_lem (suc fuel) m cp n bytes h l =
    let test =
      zero_bytes-zero (m cp) (m (cp + 1)) (m (cp + 2)) (m (cp + 3)) (bytes cp) (bytes (cp + 1))
        (bytes (cp + 2)) (bytes (cp + 3)) in
    let z0 : 0 < n → m cp ≢ 0 = λ u z. h.before 0 u (ap m (omega arith) ∙ z) in
    let at : (k : ℕ) → n ≡ k → some (cp + k) ≡ some (cp + n) =
      λ k e. ap (λ j. some (cp + j)) (sym e) in
    let nul : (k : ℕ) → n ≡ k → m (cp + k) ≡ 0 = λ k e. ap m (omega (arith, e)) ∙ h.nul in
    elim (dec_lt 3 n) [
      | yes more ↦
          let rest : word_scan fuel m (cp + 4) ≡ some (cp + n) =
            word_scan_lem fuel m (cp + 4) (n - 4) bytes
              (moved m cp (cp + 4) n 4 (n - 4) h refl (omega arith)) (omega arith)
            ∙ ap (λ k. some k) (omega arith) in
          ground (arith, z0, h.before 1, h.before 2, h.before 3, rest)
      | no few ↦ elim (dec_lt 2 n) [
        | yes third ↦
            let z : m (cp + 3) ≡ 0 = nul 3 (omega arith) in
            ground (arith, z0, h.before 1, h.before 2, z, test (inr (inr (inr z))))
            ∙ at 3 (omega arith)
        | no few2 ↦ elim (dec_lt 1 n) [
          | yes second ↦
              let z : m (cp + 2) ≡ 0 = nul 2 (omega arith) in
              ground (arith, z0, h.before 1, z, test (inr (inr (inl z)))) ∙ at 2 (omega arith)
          | no few1 ↦ elim (dec_lt 0 n) [
            | yes first ↦
                let z : m (cp + 1) ≡ 0 = nul 1 (omega arith) in
                ground (arith, z0, z, test (inr (inl z))) ∙ at 1 (omega arith)
            | no none_before ↦
                let z : m cp ≡ 0 = ap m (omega arith) ∙ h.nul in
                ground (arith, z, test (inl z))
                ∙ ap (λ j. some j) (let e : cp ≡ cp + n = omega arith in e)
          ]
        ]
      ]
    ]

align_scan-nul_at :
    (left : ℕ) (m : Bytes) (p n : ℕ)
    → IsText m p n
    → n < left
    → align_scan left m p ≡ nul_at (p + n)
unfolding align_scan
align_scan-nul_at zero m p n h l = absurd (omega arith)
align_scan-nul_at (suc left) m p zero h l =
    let z : m p ≡ 0 = ap m (let e : p ≡ p + 0 = omega arith in e) ∙ h.nul in
    rw (z, align_scan) (ap nul_at (omega arith))
align_scan-nul_at (suc left) m p (suc n) h l =
    let not_nul : (m p == 0) ≡ false =
      ground (arith, h.before 0, ap m (let e : p ≡ p + 0 = omega arith in e)) in
    rw not_nul (
      align_scan-nul_at left m (p + 1) n (moved m p (p + 1) (suc n) 1 n h refl (omega arith))
        (omega arith)
      ∙ ap nul_at (omega arith))

align_scan-aligned :
    (left : ℕ) (m : Bytes) (p n : ℕ)
    → IsText m p n
    → left ≤ n
    → align_scan left m p ≡ aligned (p + left)
unfolding align_scan
align_scan-aligned zero m p n h l = ap aligned (omega arith)
align_scan-aligned (suc left) m p n h l =
    let not_nul : (m p == 0) ≡ false =
      ground (arith, h.before 0, ap m (let e : p ≡ p + 0 = omega arith in e)) in
    rw not_nul (
      align_scan-aligned left m (p + 1) (n - 1) (moved m p (p + 1) n 1 (n - 1) h refl (omega arith))
        (omega arith)
      ∙ ap aligned (omega arith))

-- For a text of `n` bytes before its NUL, at any address, strlen with fuel for more than `n` rounds
-- gives `n`: the search by words misses no NUL and takes nothing else for one.
pub strlen-IsText :
    (fuel : ℕ) (m : Bytes) (str n : ℕ)
    → IsBytes m
    → IsText m str n
    → n < fuel
    → strlen fuel m str ≡ some n
unfolding strlen
strlen-IsText fuel m str n bytes h l =
    let left : ℕ = (4 - str % 4) % 4 in
    elim (dec_lt n left) [
      | yes near ↦
          rw (align_scan-nul_at left m str n h near, strlen) (ap (λ k. some k) (omega arith))
      | no far ↦
          rw (align_scan-aligned left m str n h (omega arith), strlen)
            (rw
              (word_scan_lem fuel m (str + left) (n - left) bytes
                (moved m str (str + left) n left (n - left) h refl (omega arith)) (omega arith))
              (ap (λ k. some k) (omega arith)))
    ]
