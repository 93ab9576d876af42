-- ===== src/Strings/Compare.antt =====
-- memcmp and strncmp.
use liqui_dos.Common.{
  ℕ, zero, suc, ◌+◌, ◌^◌, ◌<◌, ◌≡◌, ◌≢◌, ◌↔◌, inl, inr, refl, sym, ap, ◌∙◌, arith, ◌==◌, Bool-cases,
  ==_iff,
}
use liqui_dos.Strings.{Bytes, difference, memcmp, strncmp}

abbrev pub IsBytes : Bytes → Type 0
IsBytes m = (q : ℕ) → m q < 2 ^ 8

pub difference_ne : (a b : ℕ) → a < 2 ^ 8 → b < 2 ^ 8 → a ≢ b → difference a b ≢ 0
difference_ne a b h k ne e = absurd (ne (omega arith))

-- The `len` bytes from `p1` on are those from `p2` on.
abbrev pub Same : Bytes → ℕ → ℕ → ℕ → Type 0
Same m p1 p2 len = (i : ℕ) → i < len → m (p1 + i) ≡ m (p2 + i)

moved : (m : Bytes) (a b c d : ℕ) → m a ≡ m b → c ≡ a → d ≡ b → m c ≡ m d
moved m a b c d e f g = ap m f ∙ e ∙ sym (ap m g)

pub Same-suc :
    (m : Bytes) (p1 p2 len : ℕ)
    → m p1 ≡ m p2
    → Same m (p1 + 1) (p2 + 1) len
    → Same m p1 p2 (suc len)
Same-suc m p1 p2 len e rest zero l = moved m _ _ _ _ e (omega arith) (omega arith)
Same-suc m p1 p2 len e rest (suc i) l =
    moved m _ _ _ _ (rest i (omega arith)) (omega arith) (omega arith)

pub Same-first : (m : Bytes) (p1 p2 len : ℕ) → Same m p1 p2 (suc len) → m p1 ≡ m p2
Same-first m p1 p2 len all = moved m _ _ _ _ (all 0 (omega arith)) (omega arith) (omega arith)

pub Same-rest : (m : Bytes) (p1 p2 len : ℕ) → Same m p1 p2 (suc len) → Same m (p1 + 1) (p2 + 1) len
Same-rest m p1 p2 len all i l =
    moved m _ _ _ _ (all (i + 1) (omega arith)) (omega arith) (omega arith)

-- On bytes `memcmp` is 0 exactly if the two areas hold the same ones.
pub memcmp_iff :
    (len : ℕ) (m : Bytes) (p1 p2 : ℕ) → IsBytes m → (memcmp len m p1 p2 ≡ 0) ↔ Same m p1 p2 len
unfolding memcmp
memcmp_iff zero m p1 p2 bytes = ((λ e i h. absurd (omega arith)), λ h. refl)
memcmp_iff (suc len) m p1 p2 bytes =
    let rest = memcmp_iff len m (p1 + 1) (p2 + 1) bytes in
    elim (Bool-cases (m p1 == m p2)) [
      | inl same ↦ rw same (
        (λ e. Same-suc m p1 p2 len ((==_iff _ _).0 same) (rest.0 e)),
        λ h. rest.1 (Same-rest m p1 p2 len h),
      )
      | inr differ ↦ rw differ (
        (λ e. absurd (difference_ne (m p1) (m p2) (bytes p1) (bytes p2) (ground arith) e)),
        λ h. absurd (ground (arith, differ, Same-first m p1 p2 len h)),
      )
    ]

-- Within `n` bytes the strings agree up to and including the NUL of the first.
abbrev pub SameString : Bytes → ℕ → ℕ → ℕ → Type 0
SameString m s1 s2 n =
    (i : ℕ) → i < n → ((j : ℕ) → j < i → m (s1 + j) ≢ 0) → m (s1 + i) ≡ m (s2 + i)

SameString-first : (m : Bytes) (s1 s2 n : ℕ) → SameString m s1 s2 (suc n) → m s1 ≡ m s2
SameString-first m s1 s2 n all =
    moved m _ _ _ _ (all 0 (omega arith) (λ j l. absurd (omega arith))) (omega arith) (omega arith)

SameString-rest :
    (m : Bytes) (s1 s2 n : ℕ)
    → m s1 ≢ 0
    → SameString m s1 s2 (suc n)
    → SameString m (s1 + 1) (s2 + 1) n
SameString-rest m s1 s2 n more all i l before =
    moved m _ _ _ _ (all (i + 1) (omega arith) earlier) (omega arith) (omega arith)
  where
    earlier : (j : ℕ) → j < i + 1 → m (s1 + j) ≢ 0
    earlier zero k e = more (ap m (omega arith) ∙ e)
    earlier (suc j) k e = before j (omega arith) (ap m (omega arith) ∙ e)

SameString-suc :
    (m : Bytes) (s1 s2 n : ℕ)
    → m s1 ≡ m s2
    → (m s1 ≢ 0 → SameString m (s1 + 1) (s2 + 1) n)
    → SameString m s1 s2 (suc n)
SameString-suc m s1 s2 n e rest zero l before = moved m _ _ _ _ e (omega arith) (omega arith)
SameString-suc m s1 s2 n e rest (suc i) l before =
    moved m _ _ _ _ (rest more i (omega arith) later) (omega arith) (omega arith)
  where
    more : m s1 ≢ 0
    more z = before 0 (omega arith) (ap m (omega arith) ∙ z)

    later : (j : ℕ) → j < i → m (s1 + 1 + j) ≢ 0
    later j k z = before (suc j) (omega arith) (ap m (omega arith) ∙ z)

-- On bytes `strncmp` is 0 exactly if the strings agree within `n` bytes, up to and including
-- the NUL of the first.
pub strncmp_iff :
    (n : ℕ) (m : Bytes) (s1 s2 : ℕ) → IsBytes m → (strncmp n m s1 s2 ≡ 0) ↔ SameString m s1 s2 n
unfolding strncmp
strncmp_iff zero m s1 s2 bytes = ((λ e i h. absurd (omega arith)), λ h. refl)
strncmp_iff (suc n) m s1 s2 bytes =
    let rest = strncmp_iff n m (s1 + 1) (s2 + 1) bytes in
    elim (Bool-cases (m s1 == m s2)) [
      | inl same ↦ elim (Bool-cases (m s1 == 0)) [
        | inl nul ↦
            rw (same, nul)
              (
                (λ e.
                    SameString-suc m s1 s2 n ((==_iff _ _).0 same)
                      (λ more. absurd (more ((==_iff _ _).0 nul)))),
                λ h. refl,
              )
        | inr more ↦
            let some_char : m s1 ≢ 0 = ground (arith, more) in
            rw (same, more)
              (
                (λ e. SameString-suc m s1 s2 n ((==_iff _ _).0 same) (λ _. rest.0 e)),
                λ h. rest.1 (SameString-rest m s1 s2 n some_char h),
              )
      ]
      | inr differ ↦ rw differ (
        (λ e. absurd (difference_ne (m s1) (m s2) (bytes s1) (bytes s2) (ground arith) e)),
        λ h. absurd (ground (arith, differ, SameString-first m s1 s2 n h)),
      )
    ]
