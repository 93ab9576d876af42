-- ===== src/Printf.antt =====
-- lib/libc/vsprintf.c. The format is the list of its bytes before the NUL, the arguments are the
-- 32-bit words on the stack, and `g` is the function that takes the characters, with a state of its
-- own. An int is taken modulo 2 ^ 32 and a long long modulo 2 ^ 64. The texts of `%s` are read
-- from memory as the characters are handed over, and `%n` writes to it; the format and the arguments
-- are taken to stay as they are.
pub mod Directive
pub mod Text
mod Shorter
pub mod Replay
mod Kept
pub mod Run
pub mod Width
pub mod Buffer
pub mod Digits
use liqui_dos.Common.{
  ℕ, zero, suc, ◌+◌, ◌-◌, ◌*◌, ◌/◌, ◌%◌, ◌^◌, Bool, true, false, not, ◌&&◌, ◌||◌, Option, none,
  some, List, [], ◌∷◌, ◌++◌, ltb, leb, ◌==◌, if◌then◌else◌, length,
}
use liqui_dos.Strings.{Bytes, store}

pub record Flags : Type 0 where
  pub is_signed : Bool
  pub zeropad : Bool
  pub fplus : Bool
  pub splus : Bool
  pub prefix : Bool
  pub small : Bool
  pub left : Bool

-- The caller's state, and the characters counted so far.
pub record Out {ℓ} (S : Type ℓ) : Type ℓ where
  pub sink : S
  pub written : ℕ

abbrev pub is_digit : ℕ → Bool
is_digit c = leb b'0' c && leb c b'9'

abbrev pub minus_one : ℕ
minus_one = 2 ^ 32 - 1

-- `a - b` as an int.
abbrev pub int_minus : ℕ → ℕ → ℕ
int_minus a b = (a + 2 ^ 32 - b % 2 ^ 32) % 2 ^ 32

-- The rounds of `while(w-- > 0)`.
abbrev pub rounds : ℕ → ℕ
rounds w = if ltb w (2 ^ 31) then w else 0

unfoldable pub parse_num : ℕ → List ℕ → ℕ × List ℕ
parse_num num [] = (num, [])
parse_num num (c ∷ cs) =
    let rest = parse_num ((num * 10 + c - b'0') % 2 ^ 32) cs in
    if is_digit c then rest else (num, c ∷ cs)

-- The digits, lowest first, as they stand in `str`.
abbrev pub digit_char : Bool → ℕ → ℕ
digit_char small d = if ltb d 10 then b'0' + d else (if small then b'a' else b'A') + (d - 10)

unfoldable pub convert : ℕ → Bool → ℕ → ℕ → List ℕ
convert zero small base divide = []
convert (suc left) small base divide =
    let rest = convert left small base (divide / base) in
    if divide == 0 then [] else digit_char small (divide % base) ∷ rest

abbrev pub is_negative : ℕ → Bool
is_negative num = leb (2 ^ 63) num

unfoldable pub number_str : Flags → ℕ → ℕ → List ℕ
number_str flags base num =
    let divide = if is_negative num && flags.is_signed then 2 ^ 64 - num else num in
    if num == 0 then b'0' ∷ [] else convert 64 flags.small base divide

unfoldable pub prefix_width : Flags → ℕ → ℕ
prefix_width flags base =
    if flags.prefix && base == 16 then 2 else (if flags.prefix && base == 8 then 1 else 0)

unfoldable pub sign_width : Flags → ℕ → ℕ
sign_width flags num =
    if flags.is_signed && (is_negative num || flags.fplus || flags.splus) then 1 else 0

-- `sign`, with 0 for none.
unfoldable pub sign_char : Flags → ℕ → ℕ
sign_char flags num =
    if not (is_negative num) && flags.splus
    then b' '
    else (if not (is_negative num) && flags.fplus
        then b'+'
        else (if is_negative num && flags.is_signed then b'-' else 0))

module _ {ℓ} {S : Type ℓ} (g : ℕ → S → S) where
  unfoldable pub f : ℕ → Out S → Out S
  f c out = record { sink = g c out.sink; written = (out.written + 1) % 2 ^ 32 }

  -- `while(w-- > 0) written += f(g, c, _buf);`
  unfoldable pub fill : ℕ → ℕ → Out S → Out S
  unfolding f
  fill zero c out = out
  fill (suc w) c out = fill w c (f c out)

  unfoldable pub emit : List ℕ → Out S → Out S
  unfolding f
  emit [] out = out
  emit (c ∷ cs) out = emit cs (f c out)

  -- `for(int i = strlen(str); i > 0; i--) written += f(g, str[i - 1], _buf);`
  unfoldable pub emit_back : List ℕ → Out S → Out S
  unfolding f
  emit_back [] out = out
  emit_back (c ∷ cs) out = f c (emit_back cs out)

  unfoldable pub put_prefix : Flags → ℕ → Out S → Out S
  unfolding f
  put_prefix flags base out =
      if flags.prefix && base == 16
      then f (if flags.small then b'x' else b'X') (f b'0' out)
      else (if flags.prefix && base == 8 then f b'0' out else out)

  unfoldable pub num : ℕ → ℕ → Flags → ℕ → ℕ → Out S → Out S
  unfolding f fill emit_back put_prefix number_str prefix_width sign_width sign_char
  num val base flags width percision out =
      let str = number_str flags base val in
      let sign = sign_char flags val in
      let p = if percision == minus_one then 0 else percision in
      let taken = length str + (prefix_width flags base + sign_width flags val) in
      let w = rounds (int_minus width taken) in
      let out1 = if not flags.zeropad && not flags.left then fill w b' ' out else out in
      let out2 = if sign == 0 then out1 else f sign out1 in
      let out3 = fill (rounds p) b'0' (put_prefix flags base out2) in
      let out4 = if flags.zeropad then fill w b'0' out3 else out3 in
      let out5 = emit_back str out4 in
      if not flags.zeropad && flags.left then fill w b' ' out5 else out5

  -- `%c`
  unfoldable pub put_char : Flags → ℕ → ℕ → Out S → Out S
  unfolding f fill
  put_char flags width c out =
      let w = rounds (int_minus width 1) in
      let out1 = f c (if flags.left then out else fill w b' ' out) in
      if flags.left then fill w b' ' out1 else out1
