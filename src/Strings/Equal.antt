-- ===== src/Strings/Equal.antt =====
-- strcmp of two texts.
use liqui_dos.Common.{
  ℕ, zero, suc, ◌+◌, ◌<◌, ◌≡◌, ◌≢◌, ◌↔◌, inl, inr, refl, ap, ◌∙◌, arith, ◌==◌, Bool-cases, ==_iff,
  some,
}
use liqui_dos.Strings.{Bytes, difference, strcmp}
use liqui_dos.Strings.Length.{IsText, moved}
use liqui_dos.Strings.Compare.{IsBytes, Same, Same-suc, Same-first, Same-rest, difference_ne}

-- Where the first text ends within the fuel, `strcmp` ends, with 0 exactly if the second text is
-- the same, its NUL included.
pub strcmp_lem :
    (fuel n : ℕ) (m : Bytes) (s1 s2 : ℕ)
    → IsBytes m
    → IsText m s1 n
    → n < fuel
    → (d : ℕ) × (strcmp fuel m s1 s2 ≡ some d) × ((d ≡ 0) ↔ Same m s1 s2 (suc n))
unfolding strcmp
strcmp_lem zero n m s1 s2 bytes h l = absurd (omega arith)
strcmp_lem (suc fuel) zero m s1 s2 bytes h l =
    let ends : m s1 ≡ 0 = ap m (omega arith) ∙ h.nul in
    (
      difference (m s1) (m s2),
      rw ends refl,
      (
        (λ e. elim (Bool-cases (m s1 == m s2)) [
          | inl same ↦ Same-suc m s1 s2 0 ((==_iff _ _).0 same) (λ i k. absurd (omega arith))
          | inr differ ↦ absurd (difference_ne (m s1) (m s2) (bytes s1) (bytes s2) (ground arith) e)
        ]),
        λ all. omega (arith, Same-first m s1 s2 0 all),
      ),
    )
strcmp_lem (suc fuel) (suc n) m s1 s2 bytes h l =
    let more : m s1 ≢ 0 = λ z. h.before 0 (omega arith) (ap m (omega arith) ∙ z) in
    elim (Bool-cases (m s1 == m s2)) [
      | inl same ↦
          let (d, e, iff) =
            strcmp_lem fuel n m (s1 + 1) (s2 + 1) bytes
              (moved m s1 (s1 + 1) (suc n) 1 n h (omega arith) (omega arith)) (omega arith) in
          (
            d,
            ground (arith, same, more, e),
            (
              (λ z. Same-suc m s1 s2 (suc n) ((==_iff _ _).0 same) (iff.0 z)),
              λ all. iff.1 (Same-rest m s1 s2 (suc n) all),
            ),
          )
      | inr differ ↦ (
        difference (m s1) (m s2),
        ground (arith, differ),
        (
          (λ e. absurd (difference_ne (m s1) (m s2) (bytes s1) (bytes s2) (ground arith) e)),
          λ all. absurd (ground (arith, differ, Same-first m s1 s2 (suc n) all)),
        ),
      )
    ]
