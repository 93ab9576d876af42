-- ===== src/Printf/Width.antt =====
-- How many characters num in lib/libc/vsprintf.c counts.
use liqui_dos.Printf.{Flags, Out, number_str, prefix_width, sign_width, sign_char, num}
use liqui_dos.Printf.Text.{
  length-reversed, number_text, num-emit, field_room, percision_zeros, sign_text, prefix_text,
  spaces_before, zeros_before, spaces_behind,
}
use liqui_dos.Printf.Digits.{number_str-IsNumber}
use liqui_dos.Printf.Run.{emit-run}
use liqui_dos.Common.{
  ℕ, ◌+◌, ◌%◌, ◌^◌, ◌≤◌, ◌<◌, ◌≡◌, ◌⊎◌, true, ap, arith, List, ltb, if◌then◌else◌, length,
  length-append, length-replicate,
}

length-prefix_text :
    (flags : Flags) (base : ℕ) → length (prefix_text flags base) ≡ prefix_width flags base
unfolding prefix_text prefix_width
length-prefix_text flags base = ground arith

length-sign_text :
    (flags : Flags) (val : ℕ)
    → flags.is_signed ≡ true
    → length (sign_text flags val) ≡ sign_width flags val
unfolding sign_text sign_width sign_char
length-sign_text flags val signed = ground arith

-- The blanks and zeros that fill the field.
length-filling :
    (flags : Flags) (w : ℕ)
    → length (spaces_before flags w)
        + length (zeros_before flags w)
        + length (spaces_behind flags w)
      ≡ w
unfolding spaces_before zeros_before spaces_behind
length-filling flags w =
    ground (arith, length-replicate {A = ℕ} w 32, length-replicate {A = ℕ} w 48)

abbrev pub larger : ℕ → ℕ → ℕ
larger a b = if ltb a b then b else a

-- Digits, prefix and sign.
abbrev pub natural_width : Flags → ℕ → ℕ → ℕ
natural_width flags base val =
    length (number_str flags base val) + (prefix_width flags base + sign_width flags val)

field_room_lem :
    (flags : Flags) (base width val : ℕ)
    → width < 2 ^ 31
    → length (number_str flags base val) ≤ 22
    → natural_width flags base val + field_room flags base width val
      ≡ larger width (natural_width flags base val)
unfolding field_room prefix_width sign_width
field_room_lem flags base width val wide few = ground arith

percision_zeros_lem : (p : ℕ) → p < 2 ^ 31 → percision_zeros p ≡ p
unfolding percision_zeros
percision_zeros_lem p l = ground arith

length-number_text :
    (val base : ℕ) (flags : Flags) (width percision : ℕ)
    → flags.is_signed ≡ true
    → length (number_text val base flags width percision)
      ≡ natural_width flags base val + field_room flags base width val + percision_zeros percision
unfolding number_text
length-number_text val base flags width percision signed =
    let w : ℕ = field_room flags base width val in
    rw (length-append, length-append, length-append, length-append, length-append, length-append)
      (omega (
        arith,
        length-filling flags w,
        length-prefix_text flags base,
        length-sign_text flags val signed,
        length-replicate {A = ℕ} (percision_zeros percision) 48,
        length-reversed (number_str flags base val),
      ))

-- In base 8, 10 or 16, with a width and a percision below 2 ^ 31, num of a signed 64-bit number
-- counts as many characters as the larger of the width and the number's own (digits, prefix and
-- sign), and one more for each unit of the percision, whatever the number of digits is.
pub num-larger {ℓ} :
    {S : Type ℓ} (g : ℕ → S → S) (val base : ℕ) (flags : Flags) (width percision : ℕ) (out : Out S)
    → flags.is_signed ≡ true
    → (base ≡ 8) ⊎ (base ≡ 10) ⊎ (base ≡ 16)
    → val < 2 ^ 64
    → width < 2 ^ 31
    → percision < 2 ^ 31
    → out.written < 2 ^ 32
    → (num g val base flags width percision out).written
      ≡ (out.written + larger width (natural_width flags base val) + percision) % 2 ^ 32
num-larger g val base flags width percision out signed which l wide precise counted =
    let text : List ℕ = number_text val base flags width percision in
    let whole = ap (λ o. o.written) (num-emit g val base flags width percision out) in
    let (sinks, count) = emit-run g text out counted in
    let parts = length-number_text val base flags width percision signed in
    let digits = number_str-IsNumber flags base val which l in
    let room : natural_width flags base val + field_room flags base width val
        ≡ larger width (natural_width flags base val) =
      field_room_lem flags base width val wide
        (omega (arith, digits.fits, length-reversed (number_str flags base val))) in
    omega (arith, whole, count, parts, room, percision_zeros_lem percision precise)
