-- ===== src/Characters.antt =====
-- lib/libc/ctype.c and lib/libc/stdlib.c. An int is a number below 2 ^ 32 in two's complement, and
-- a test gives a Boolean.
pub mod Classes
pub mod Division
use liqui_dos.Common.{
  ℕ, ◌+◌, ◌-◌, ◌*◌, ◌/◌, ◌%◌, ◌^◌, Bool, not, ◌&&◌, ◌||◌, Option, none, some, ltb, leb, ◌==◌,
  if◌then◌else◌,
}

-- `c >= k` and `c <= k` for a `k` that is not negative.
abbrev pub at_least : ℕ → ℕ → Bool
at_least c k = leb k c && ltb c (2 ^ 31)

abbrev pub at_most : ℕ → ℕ → Bool
at_most c k = leb c k || leb (2 ^ 31) c

abbrev pub between : ℕ → ℕ → ℕ → Bool
between low c high = at_least c low && at_most c high

unfoldable pub isalnum : ℕ → Bool
isalnum c = between b'A' c b'Z' || between b'a' c b'z' || between b'0' c b'9'

unfoldable pub isalpha : ℕ → Bool
isalpha c = between b'A' c b'Z' || between b'a' c b'z'

unfoldable pub isascii : ℕ → Bool
isascii c = between 0 c 255

unfoldable pub isdigit : ℕ → Bool
isdigit c = at_least c b'0' || at_most c b'9'

unfoldable pub islower : ℕ → Bool
islower c = between b'a' c b'z'

unfoldable pub isspace : ℕ → Bool
isspace c = c == b' ' || c == 9

unfoldable pub isupper : ℕ → Bool
isupper c = between b'A' c b'Z'

unfoldable pub isxdigit : ℕ → Bool
isxdigit c = between b'A' c b'F' || between b'a' c b'f' || between b'0' c b'9'

unfoldable pub toascii : ℕ → ℕ
toascii c = c

unfoldable pub tolower : ℕ → ℕ
tolower c = if between b'A' c b'Z' then (c + (b'a' - b'A')) % 2 ^ 32 else c

unfoldable pub toupper : ℕ → ℕ
toupper c = if between b'a' c b'z' then (c + 2 ^ 32 - (b'a' - b'A')) % 2 ^ 32 else c

unfoldable pub abs : ℕ → ℕ
abs j = if ltb j (2 ^ 31) then j else (2 ^ 32 - j) % 2 ^ 32

-- A long has the width of an int.
unfoldable pub labs : ℕ → ℕ
labs j = if ltb j (2 ^ 31) then j else (2 ^ 32 - j) % 2 ^ 32

pub record LdivT : Type 0 where
  pub quot : ℕ
  pub rem : ℕ

abbrev pub negated : Bool → ℕ → ℕ
negated negative x = if negative then (2 ^ 32 - x) % 2 ^ 32 else x

abbrev pub differ : Bool → Bool → Bool
differ a b = if a then not b else b

-- `n / d` and `n % d` round to 0. `none` is the fault of the processor's division.
unfoldable pub ldiv : ℕ → ℕ → Option LdivT
unfolding labs
ldiv n d =
    let n_negative = leb (2 ^ 31) n in
    let d_negative = leb (2 ^ 31) d in
    let quot = negated (differ n_negative d_negative) (labs n / labs d) in
    let rem = negated n_negative (labs n % labs d) in
    if d == 0 || (n == 2 ^ 31 && d == 2 ^ 32 - 1)
    then none
    else (if not n_negative && leb (2 ^ 31) rem
        then some (record { quot = (quot + 1) % 2 ^ 32; rem = (rem + 2 ^ 32 - d) % 2 ^ 32 })
        else some (record { quot = quot; rem = rem }))

-- The number, and the next state.
unfoldable pub rand : ℕ → ℕ × ℕ
rand next = let next' = (next * 1103515245 + 12345) % 2 ^ 32 in (next' / 65536 % 32768, next')
