-- ===== src/Printf/Directive.antt =====
-- ssprintf and vsprintf in lib/libc/vsprintf.c: the directives of a format and the loop over it.
use liqui_dos.Common.{
  ℕ, zero, suc, ◌+◌, ◌-◌, ◌*◌, ◌/◌, ◌%◌, ◌^◌, true, false, ◌||◌, Option, none, some, List, [], ◌∷◌,
  ltb, leb, ◌==◌, if◌then◌else◌, length,
}
use mathlib.Core.Option
use liqui_dos.Strings.{Bytes, store}
use liqui_dos.Printf.{
  Flags, Out, is_digit, minus_one, int_minus, rounds, parse_num, f, fill, num, put_char,
}

-- What is read of a directive, with the rest of the format and the next argument's index.
pub record Directive : Type 0 where
  pub flags : Flags
  pub width : ℕ
  pub percision : ℕ
  pub length : ℕ
  pub fmt : List ℕ
  pub arg : ℕ

abbrev pub Args : Type 0
Args = ℕ → ℕ

abbrev pub no_flags : Flags
no_flags = record {
  is_signed = false;
  zeropad = false;
  fplus = false;
  splus = false;
  prefix = false;
  small = false;
  left = false;
}

-- `*fmt`, and `fmt++` in front of it.
abbrev pub peek : List ℕ → ℕ
peek [] = 0
peek (c ∷ cs) = c

abbrev pub next : List ℕ → List ℕ
next [] = []
next (c ∷ cs) = cs

unfoldable pub flag_of : ℕ → Flags → Option Flags
flag_of c flags =
    if c == b'0'
    then some (record flags { zeropad = true })
    else (if c == b' '
        then some (record flags { splus = true })
        else (if c == b'+'
            then some (record flags { fplus = true })
            else (if c == b'#'
                then some (record flags { prefix = true })
                else (if c == b'-' then some (record flags { left = true }) else none))))

unfoldable pub parse_flags : Flags → List ℕ → Flags × List ℕ
parse_flags flags [] = (flags, [])
parse_flags flags (c ∷ cs) = elim (flag_of c flags) [
  | none ↦ (flags, c ∷ cs)
  | some more ↦ parse_flags more cs
]

unfoldable pub parse_width : Args → Directive → Directive
parse_width args d =
    let given = args d.arg % 2 ^ 32 in
    let (n, rest) = parse_num 0 d.fmt in
    if peek d.fmt == b'*'
    then (if leb (2 ^ 31) given
        then record d {
          flags = record d.flags { left = true };
          width = int_minus 0 given;
          fmt = next d.fmt;
          arg = d.arg + 1;
        }
        else record d { width = given; fmt = next d.fmt; arg = d.arg + 1 })
    else (if is_digit (peek d.fmt) then record d { width = n; fmt = rest } else d)

-- `percision < 0 ? 0 : percision`
abbrev pub not_negative : ℕ → ℕ
not_negative p = if leb (2 ^ 31) p then 0 else p

unfoldable pub parse_percision : Args → Directive → Directive
parse_percision args d =
    let fmt1 = next d.fmt in
    let given = args d.arg % 2 ^ 32 in
    let (n, rest) = parse_num 0 fmt1 in
    if peek d.fmt == b'.'
    then (if peek fmt1 == b'*'
        then record d { percision = not_negative given; fmt = next fmt1; arg = d.arg + 1 }
        else (if is_digit (peek fmt1)
            then record d { percision = not_negative n; fmt = rest }
            else record d { percision = 0; fmt = fmt1 }))
    else d

unfoldable pub parse_length : Directive → Directive
parse_length d =
    let c = peek d.fmt in
    let d1 =
      if c == b'h' || c == b'l' || c == b'L'
      then record d { length = c; fmt = next d.fmt }
      else d in
    if peek d1.fmt == b'l' then record d1 { fmt = next d1.fmt } else d1

abbrev pub start : ℕ → Flags × List ℕ → Directive
start arg (flags, rest) = record {
  flags = flags;
  width = minus_one;
  percision = minus_one;
  length = 0;
  fmt = rest;
  arg = arg;
}

unfoldable pub parse : Args → ℕ → List ℕ → Directive
unfolding parse_flags parse_width parse_percision parse_length
parse args arg fmt =
    parse_length (parse_percision args (parse_width args (start arg (parse_flags no_flags fmt))))

-- A signed number of `w` bits as a long long.
abbrev pub sign_extend : ℕ → ℕ → ℕ
sign_extend w v = if ltb v (2 ^ (w - 1)) then v else v + 2 ^ 64 - 2 ^ w

abbrev pub long_arg : Args → ℕ → ℕ
long_arg args k = args k % 2 ^ 32 + args (k + 1) % 2 ^ 32 * 2 ^ 32

unfoldable pub unsigned_arg : Args → Directive → ℕ
unsigned_arg args d =
    let word = args d.arg % 2 ^ 32 in
    if d.length == b'l'
    then long_arg args d.arg
    else (if d.length == b'h' then word % 2 ^ 16 else word)

unfoldable pub signed_arg : Args → Directive → ℕ
signed_arg args d =
    let word = args d.arg % 2 ^ 32 in
    if d.length == b'l'
    then long_arg args d.arg
    else (if d.length == b'h' then sign_extend 16 (word % 2 ^ 16) else sign_extend 32 word)

abbrev pub next_arg : Directive → ℕ
next_arg d = if d.length == b'l' then d.arg + 2 else d.arg + 1

-- The bytes of a text up to its NUL.
unfoldable pub text_at : ℕ → Bytes → ℕ → Option (List ℕ)
text_at zero m p = none
text_at (suc fuel) m p =
    let rest = text_at fuel m (p + 1) in
    if m p == 0 then some [] else (elim rest [ none ↦ none | some cs ↦ some (m p ∷ cs) ])

pub record State {ℓ} (S : Type ℓ) : Type ℓ where
  pub out : Out S
  pub arg : ℕ

-- A directive ends with the state and the rest of the format, or makes ssprintf return -1.
pub data Step {ℓ} (S : Type ℓ) : Type ℓ where
  went : State S → List ℕ → Step S
  refused : Step S

-- The base by the cases that fall through.
abbrev pub base_of : ℕ → ℕ
base_of c = if c == b'x' || c == b'X' then 16 else (if c == b'o' then 8 else 10)

abbrev pub with_small : ℕ → Flags → Flags
with_small c flags = if c == b'x' then record flags { small = true } else flags

-- `*foo = written`
unfoldable pub store_int : ℕ → ℕ → Bytes → Bytes
store_int p v m =
    store (p + 3) (v / 2 ^ 24 % 2 ^ 8) (
      store (p + 2) (v / 2 ^ 16 % 2 ^ 8)
        (store (p + 1) (v / 2 ^ 8 % 2 ^ 8) (store p (v % 2 ^ 8) m)))

-- What ssprintf needs of the state besides the function that takes the characters: the memory as it
-- is in a state, and the store of an int.
pub record Access {ℓ} (S : Type ℓ) : Type ℓ where
  pub memory : S → Bytes
  pub store_at : ℕ → ℕ → S → S

module _ {ℓ} {S : Type ℓ} (g : ℕ → S → S) (access : Access S) (fuel : ℕ) (args : Args) where
  -- `for(int i = 0; str[i] != '\0'; i++) written += f(g, str[i], &buf);`, on fuel. Each byte is read
  -- after the one before it is handed over.
  unfoldable pub print_text : ℕ → ℕ → Out S → Option (Out S)
  print_text zero p out = none
  print_text (suc left) p out =
      let c = access.memory out.sink p in
      let rest = print_text left (p + 1) (f g c out) in if c == 0 then some out else rest

  -- `%s`: the text with its padding, whose length is read before.
  unfoldable pub put_text : Flags → ℕ → ℕ → Out S → Option (Out S)
  unfolding print_text
  put_text flags width p out = elim (text_at fuel (access.memory out.sink) p) [
    | none ↦ none
    | some str ↦
        let w = rounds (int_minus width (length str)) in
        if flags.left
        then Option.map (fill g w b' ') (print_text fuel p out)
        else print_text fuel p (fill g w b' ' out)
  ]

  unfoldable pub convert_unsigned : Directive → State S → State S
  convert_unsigned d st =
      let c = peek d.fmt in
      record st {
        out =
            num g (unsigned_arg args d) (base_of c) (with_small c d.flags) d.width d.percision
              st.out;
        arg = next_arg d;
      }

  unfoldable pub convert_signed : Directive → State S → State S
  convert_signed d st =
      let flags = record d.flags { is_signed = true } in
      record st {
        out = num g (signed_arg args d) 10 flags d.width d.percision st.out;
        arg = next_arg d;
      }

  unfoldable pub convert_pointer : Directive → State S → State S
  convert_pointer d st =
      let plain = d.width == minus_one in
      let width = if plain then 8 else d.width in
      let flags = if plain then record d.flags { zeropad = true } else d.flags in
      let val = sign_extend 32 (args d.arg % 2 ^ 32) in
      record st { out = num g val 16 flags width d.percision st.out; arg = d.arg + 1 }

  -- The switch on the character of the conversion.
  unfoldable pub conversion : Directive → State S → Option (Step S)
  unfolding put_text convert_unsigned convert_signed convert_pointer
  conversion d st =
      let c = peek d.fmt in
      let rest = next d.fmt in
      let word = args d.arg % 2 ^ 32 in
      if c == b's'
      then Option.map (λ o. went (record { out = o; arg = d.arg + 1 }) rest)
          (put_text d.flags d.width word st.out)
      else (if c == b'c'
          then some (
              went
                (record st {
                  out = put_char g d.flags d.width (word % 2 ^ 8) st.out;
                  arg = d.arg + 1;
                })
                rest)
          else (if c == b'x' || c == b'X' || c == b'o' || c == b'u'
              then some (went (convert_unsigned d st) rest)
              else (if c == b'p'
                  then some (went (convert_pointer d st) rest)
                  else (if c == b'i' || c == b'd'
                      then some (went (convert_signed d st) rest)
                      else (if c == b'n'
                          then some (
                              went
                                (record st {
                                  out = record st.out {
                                    sink = access.store_at word (st.out).written (st.out).sink;
                                  };
                                  arg = d.arg + 1;
                                })
                                rest)
                          else (if c == b'%'
                              then some
                                  (went (record st { out = f g b'%' st.out; arg = d.arg }) rest)
                              else some refused))))))

  -- One round of the loop.
  unfoldable pub step : ℕ → List ℕ → State S → Option (Step S)
  unfolding conversion
  step c cs st =
      if c == b'%'
      then conversion (parse args st.arg cs) st
      else some (went (record st { out = f g c st.out }) cs)

  -- The value returned, with the state that is left. `none` is a loop that goes on.
  unfoldable pub print_loop : ℕ → List ℕ → State S → Option (ℕ × State S)
  print_loop zero fmt st = none
  print_loop (suc left) [] st = some ((st.out).written, st)
  print_loop (suc left) (c ∷ cs) st = elim (step c cs st) [
    | none ↦ none
    | some refused ↦ some (minus_one, st)
    | some (went st' rest) ↦ print_loop left rest st'
  ]

  unfoldable pub ssprintf : List ℕ → S → Option (ℕ × State S)
  unfolding print_loop
  ssprintf fmt s =
      print_loop (length fmt + 1) fmt (record { out = record { sink = s; written = 0 }; arg = 0 })

-- `__swrite_sbuf__`: the memory and the place of the next character.
abbrev pub swrite_sbuf : ℕ → Bytes × ℕ → Bytes × ℕ
swrite_sbuf c (m, buf) = (store buf c m, buf + 1)

abbrev pub buffer_access : Access (Bytes × ℕ)
buffer_access = record { memory = λ (m, buf). m; store_at = λ p v (m, buf). (store_int p v m, buf) }

unfoldable pub vsprintf : ℕ → Bytes → ℕ → List ℕ → Args → Option (ℕ × State (Bytes × ℕ))
vsprintf fuel m buf fmt args = ssprintf swrite_sbuf buffer_access fuel args fmt (m, buf)
