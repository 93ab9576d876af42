-- ===== src/Printf/Text.antt =====
-- What the conversions of vsprintf.c hand to the function that takes the characters.
use liqui_dos.Printf.{
  Flags, Out, minus_one, int_minus, rounds, number_str, prefix_width, sign_width, sign_char, f,
  fill, emit, emit_back, put_prefix, num,
}
use liqui_dos.Common.{
  ℕ, zero, suc, ◌+◌, ◌≡◌, inl, inr, refl, sym, Bool, true, false, not, ◌&&◌, ap, ◌∙◌, arith, List,
  [], ◌∷◌, ◌++◌, ◌==◌, if◌then◌else◌, Bool-cases, length, replicate, length-append,
}

unfoldable pub reversed {ℓ} : {A : Type ℓ} → List A → List A
reversed [] = []
reversed (x ∷ xs) = reversed xs ++ x ∷ []

pub length-reversed {ℓ} : {A : Type ℓ} (xs : List A) → length (reversed xs) ≡ length xs
unfolding reversed
length-reversed [] = refl
length-reversed (x ∷ xs) = ground (arith, length-append (reversed xs) (x ∷ []), length-reversed xs)

-- The characters of a number, in the order of the code.
unfoldable pub sign_text : Flags → ℕ → List ℕ
sign_text flags val = if sign_char flags val == 0 then [] else sign_char flags val ∷ []

unfoldable pub prefix_text : Flags → ℕ → List ℕ
prefix_text flags base =
    if flags.prefix && base == 16
    then b'0' ∷ (if flags.small then b'x' else b'X') ∷ []
    else (if flags.prefix && base == 8 then b'0' ∷ [] else [])

unfoldable pub field_room : Flags → ℕ → ℕ → ℕ → ℕ
field_room flags base width val = rounds (
    int_minus width
      (length (number_str flags base val) + (prefix_width flags base + sign_width flags val)))

unfoldable pub percision_zeros : ℕ → ℕ
percision_zeros p = rounds (if p == minus_one then 0 else p)

unfoldable pub spaces_before : Flags → ℕ → List ℕ
spaces_before flags w = if not flags.zeropad && not flags.left then replicate w b' ' else []

unfoldable pub zeros_before : Flags → ℕ → List ℕ
zeros_before flags w = if flags.zeropad then replicate w b'0' else []

unfoldable pub spaces_behind : Flags → ℕ → List ℕ
spaces_behind flags w = if not flags.zeropad && flags.left then replicate w b' ' else []

unfoldable pub number_text : ℕ → ℕ → Flags → ℕ → ℕ → List ℕ
number_text val base flags width percision =
    let w = field_room flags base width val in
    spaces_before flags w
    ++ sign_text flags val
    ++ prefix_text flags base
    ++ replicate (percision_zeros percision) b'0'
    ++ zeros_before flags w
    ++ reversed (number_str flags base val)
    ++ spaces_behind flags w

module _ {ℓ} {S : Type ℓ} (g : ℕ → S → S) where
  pub emit-append :
      (xs ys : List ℕ) (out : Out S) → emit g (xs ++ ys) out ≡ emit g ys (emit g xs out)
  unfolding emit
  emit-append [] ys out = refl
  emit-append (x ∷ xs) ys out = emit-append xs ys (f g x out)

  pub fill_lem : (w c : ℕ) (out : Out S) → fill g w c out ≡ emit g (replicate w c) out
  unfolding fill emit
  fill_lem zero c out = refl
  fill_lem (suc w) c out = fill_lem w c (f g c out)

  pub emit_back_lem : (cs : List ℕ) (out : Out S) → emit_back g cs out ≡ emit g (reversed cs) out
  unfolding emit_back emit reversed
  emit_back_lem [] out = refl
  emit_back_lem (c ∷ cs) out =
      ap (f g c) (emit_back_lem cs out) ∙ sym (emit-append (reversed cs) (c ∷ []) out)

  put_prefix_lem :
      (flags : Flags) (base : ℕ) (out : Out S)
      → put_prefix g flags base out ≡ emit g (prefix_text flags base) out
  unfolding put_prefix prefix_text emit
  put_prefix_lem flags base out = elim (Bool-cases (flags.prefix && base == 16)) [
    | inl hex ↦ rw hex refl
    | inr other ↦ elim (Bool-cases (flags.prefix && base == 8)) [
      | inl oct ↦ rw (other, oct) refl
      | inr plain ↦ rw (other, plain) refl
    ]
  ]

  if_emit :
      (b : Bool) (cs : List ℕ) (out : Out S)
      → (if b then emit g cs out else out) ≡ emit g (if b then cs else []) out
  unfolding emit
  if_emit true cs out = refl
  if_emit false cs out = refl

  if_sign :
      (c : ℕ) (out : Out S)
      → (if c == 0 then out else f g c out) ≡ emit g (if c == 0 then [] else c ∷ []) out
  unfolding emit
  if_sign c out = elim (Bool-cases (c == 0)) [ inl p ↦ rw p refl | inr p ↦ rw p refl ]

  pub num-emit :
      (val base : ℕ) (flags : Flags) (width percision : ℕ) (out : Out S)
      → num g val base flags width percision out
        ≡ emit g (number_text val base flags width percision) out
  unfolding num number_text sign_text percision_zeros field_room spaces_before zeros_before
      spaces_behind
  num-emit val base flags width percision out =
      simp (emit-append, if_emit, if_sign, put_prefix_lem, fill_lem, emit_back_lem)
