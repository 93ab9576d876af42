-- ===== src/Printf/Digits.antt =====
-- Lemmas on the digit loop of num in lib/libc/vsprintf.c.
use native.Mathlib.Nat.{pow-suc}
use mathlib.Core.List.{append-nil}
use liqui_dos.Printf.{
  Flags, Out, prefix_width, sign_width, sign_char, minus_one, is_negative, digit_char, convert,
  number_str, emit, num,
}
use native.Mathlib.Decide.{dec_lt}
use liqui_dos.Printf.Directive.{peek}
use liqui_dos.Printf.Text.{
  reversed, length-reversed, number_text, num-emit, field_room, percision_zeros, sign_text,
  prefix_text, spaces_before, zeros_before, spaces_behind,
}
use liqui_dos.Common.{
  ℕ, zero, suc, ◌+◌, ◌-◌, ◌*◌, ◌/◌, ◌%◌, ◌^◌, ◌≤◌, ◌<◌, ◌≡◌, ◌⊎◌, inl, inr, refl, Bool, true, false,
  ◌&&◌, ap, ◌∙◌, arith, List, [], ◌∷◌, ◌++◌, ltb, ◌==◌, if◌then◌else◌, Bool-cases, length,
}

-- The value of a digit, and of the digits of a number with the highest first.
abbrev pub char_value : ℕ → ℕ
char_value c =
    if ltb c b'A' then c - b'0' else (if ltb c b'a' then c - b'A' + 10 else c - b'a' + 10)

unfoldable pub read_number : ℕ → ℕ → List ℕ → ℕ
read_number base acc [] = acc
read_number base acc (c ∷ cs) = read_number base (acc * base + char_value c) cs

-- And with the lowest first.
unfoldable read_low : ℕ → List ℕ → ℕ
read_low base [] = 0
read_low base (c ∷ cs) = read_low base cs * base + char_value c

read_number-append :
    (base acc : ℕ) (xs ys : List ℕ)
    → read_number base acc (xs ++ ys) ≡ read_number base (read_number base acc xs) ys
unfolding read_number
read_number-append base acc [] ys = refl
read_number-append base acc (x ∷ xs) ys = read_number-append base (acc * base + char_value x) xs ys

read_number-reversed :
    (base : ℕ) (cs : List ℕ) → read_number base 0 (reversed cs) ≡ read_low base cs
unfolding read_number reversed read_low
read_number-reversed base [] = refl
read_number-reversed base (c ∷ cs) =
    read_number-append base 0 (reversed cs) (c ∷ [])
    ∙ ap (λ n. n * base + char_value c) (read_number-reversed base cs)

char_value-digit_char : (small : Bool) (d : ℕ) → d < 16 → char_value (digit_char small d) ≡ d
char_value-digit_char true d l = ground arith
char_value-digit_char false d l = ground arith

-- A base of the conversions.
record IsBase (base : ℕ) : Type 0 where
  most : base ≤ 16
  whole : (d : ℕ) → d / base * base + d % base ≡ d
  below : (d : ℕ) → d % base < base
  eighth : (d : ℕ) → d / base ≤ d / 8

bases : (base : ℕ) → (base ≡ 8) ⊎ (base ≡ 10) ⊎ (base ≡ 16) → IsBase base
bases base (inl e) = rw e (record {
  most = omega arith;
  whole = λ d. omega arith;
  below = λ d. omega arith;
  eighth = λ d. omega arith;
})
bases base (inr (inl e)) = rw e (record {
  most = omega arith;
  whole = λ d. omega arith;
  below = λ d. omega arith;
  eighth = λ d. omega arith;
})
bases base (inr (inr e)) = rw e (record {
  most = omega arith;
  whole = λ d. omega arith;
  below = λ d. omega arith;
  eighth = λ d. omega arith;
})

peek-append : (xs ys : List ℕ) → 0 < peek xs → peek (xs ++ ys) ≡ peek xs
peek-append [] ys p = omega arith
peek-append (x ∷ xs) ys p = refl

module _ (small : Bool) (base : ℕ) (h : IsBase base) where
  read_low-convert : (left d : ℕ) → d < 2 ^ left → read_low base (convert left small base d) ≡ d
  unfolding read_low convert
  read_low-convert zero d l = ground arith
  read_low-convert (suc left) d l = elim (Bool-cases (d == 0)) [
    | inl nothing ↦ rw nothing (ground arith)
    | inr more ↦
        let d_below : d / base < 2 ^ left = omega (arith, h.eighth d, pow-suc 2 left) in
        let value : char_value (digit_char small (d % base)) ≡ d % base =
          char_value-digit_char small (d % base) (omega (arith, h.below d, h.most)) in
        rw (more, value) (rw (read_low-convert left (d / base) d_below) (h.whole d))
  ]

  length-convert : (left k d : ℕ) → d < 8 ^ k → length (convert left small base d) ≤ k
  unfolding convert
  length-convert zero k d l = omega arith
  length-convert (suc left) zero d l = ground arith
  length-convert (suc left) (suc k) d l =
      let rest = length-convert left k (d / base) (omega (arith, h.eighth d, pow-suc 8 k)) in
      ground (arith, rest)

  convert_nothing : (left : ℕ) → convert left small base 0 ≡ []
  unfolding convert
  convert_nothing zero = refl
  convert_nothing (suc left) = refl

  -- The highest digit of a number above 0.
  highest-convert :
      (left d : ℕ) → 0 < d → d < 2 ^ left → 48 < peek (reversed (convert left small base d))
  unfolding convert reversed
  highest-convert zero d some_left l = omega arith
  highest-convert (suc left) d some_left l =
      let not_zero : (d == 0) ≡ false = ground arith in
      let digit : char_value (digit_char small (d % base)) ≡ d % base =
        char_value-digit_char small (d % base) (omega (arith, h.below d, h.most)) in
      let whole = h.whole d in
      elim (dec_lt 0 (d / base)) [
        | yes more ↦
            let rest : 48 < peek (reversed (convert left small base (d / base))) =
              highest-convert left (d / base) more (omega (arith, h.eighth d, pow-suc 2 left)) in
            rw
              (
                not_zero,
                peek-append (reversed (convert left small base (d / base)))
                    (digit_char small (d % base) ∷ []) (omega (arith, rest)),
              )
              rest
        | no last ↦
            let nothing : d / base ≡ 0 = omega arith in
            let one : d % base ≡ d = omega (arith, whole, ap (λ q. q * base) nothing) in
            rw (not_zero, nothing, convert_nothing left) (ground (arith, one, digit))
      ]

-- The size of the number that the digits stand for.
abbrev pub magnitude : Flags → ℕ → ℕ
magnitude flags val = if is_negative val && flags.is_signed then 2 ^ 64 - val else val

-- Without a width, a percision, a plus flag and a prefix.
abbrev pub plain_flags : Bool → Bool → Flags
plain_flags is_signed small = record {
  is_signed = is_signed;
  zeropad = false;
  fplus = false;
  splus = false;
  prefix = false;
  small = small;
  left = false;
}

-- The digits of a number read back as it; they are at most 22, and only 0 starts with a zero.
pub record IsNumber (base value : ℕ) (cs : List ℕ) : Type 0 where
  pub reads : read_number base 0 cs ≡ value
  pub fits : length cs ≤ 22
  pub leads : 0 < value → 48 < peek cs

zero-IsNumber : (base : ℕ) → IsNumber base 0 (reversed (b'0' ∷ []))
unfolding reversed read_number
zero-IsNumber base = record { reads = omega arith; fits = omega arith; leads = λ p. omega arith }

pub number_str-IsNumber :
    (flags : Flags) (base val : ℕ)
    → (base ≡ 8) ⊎ (base ≡ 10) ⊎ (base ≡ 16)
    → val < 2 ^ 64
    → IsNumber base (magnitude flags val) (reversed (number_str flags base val))
unfolding number_str
number_str-IsNumber flags base val which l =
    let h : IsBase base = bases base which in
    let d : ℕ = magnitude flags val in
    let small : d < 2 ^ 64 = ground arith in
    elim (Bool-cases (val == 0)) [
      | inl nothing ↦
          let none_left : magnitude flags val ≡ 0 = ground arith in
          rw (nothing, none_left) (zero-IsNumber base)
      | inr more ↦ rw more (record {
        reads =
            read_number-reversed base (convert 64 flags.small base d)
            ∙ read_low-convert flags.small base h 64 d small;
        fits =
            rw (length-reversed (convert 64 flags.small base d))
              (length-convert flags.small base h 64 22 d (omega arith));
        leads = λ p. highest-convert flags.small base h 64 d p small;
      })
    ]

sign_text-plain :
    (is_signed small : Bool) (val : ℕ)
    → sign_text (plain_flags is_signed small) val
      ≡ (if is_negative val && is_signed then b'-' ∷ [] else [])
unfolding sign_text sign_char
sign_text-plain is_signed small val = elim (Bool-cases (is_negative val)) [
  | inl p ↦ elim (Bool-cases is_signed) [ inl q ↦ rw (p, q) refl | inr q ↦ rw (p, q) refl ]
  | inr p ↦ rw p refl
]

field_room-plain :
    (is_signed small : Bool) (base val : ℕ)
    → (base ≡ 8) ⊎ (base ≡ 10) ⊎ (base ≡ 16)
    → val < 2 ^ 64
    → field_room (plain_flags is_signed small) base minus_one val ≡ 0
unfolding field_room prefix_width sign_width
field_room-plain is_signed small base val which l =
    let n = number_str-IsNumber (plain_flags is_signed small) base val which l in
    ground (arith, n.fits, length-reversed (number_str (plain_flags is_signed small) base val))

number_text-plain :
    (is_signed small : Bool) (base val : ℕ)
    → (base ≡ 8) ⊎ (base ≡ 10) ⊎ (base ≡ 16)
    → val < 2 ^ 64
    → number_text val base (plain_flags is_signed small) minus_one minus_one
      ≡ (if is_negative val && is_signed then b'-' ∷ [] else [])
        ++ reversed (number_str (plain_flags is_signed small) base val)
unfolding number_text prefix_text percision_zeros spaces_before zeros_before spaces_behind
number_text-plain is_signed small base val which l =
    rw (field_room-plain is_signed small base val which l, sign_text-plain) (simp append-nil)

-- num of a 64-bit number in base 8, 10 or 16, without a width, a percision, a plus flag and a
-- prefix, hands over a minus sign for a negative number that is signed, and then its digits.
pub num-IsNumber {ℓ} :
    {S : Type ℓ} (g : ℕ → S → S) (is_signed small : Bool) (val base : ℕ) (out : Out S)
    → (base ≡ 8) ⊎ (base ≡ 10) ⊎ (base ≡ 16)
    → val < 2 ^ 64
    → (cs : List ℕ) × (num g val base (plain_flags is_signed small) minus_one minus_one out
        ≡ emit g ((if is_negative val && is_signed then b'-' ∷ [] else []) ++ cs) out)
      × IsNumber base (magnitude (plain_flags is_signed small) val) cs
num-IsNumber g is_signed small val base out which l = (
  reversed (number_str (plain_flags is_signed small) base val),
  num-emit g val base (plain_flags is_signed small) minus_one minus_one out
      ∙ ap (λ cs. emit g cs out) (number_text-plain is_signed small base val which l),
  number_str-IsNumber (plain_flags is_signed small) base val which l,
)
