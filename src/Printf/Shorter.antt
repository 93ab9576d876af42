-- ===== src/Printf/Shorter.antt =====
-- What the parser of a directive in lib/libc/vsprintf.c leaves of the format.
use liqui_dos.Printf.{Flags, is_digit, parse_num}
use liqui_dos.Printf.Directive.{
  Directive, Args, next, no_flags, flag_of, parse_flags, parse_width, parse_percision, parse_length,
  parse, start,
}
use liqui_dos.Common.{
  ℕ, ◌+◌, ◌-◌, ◌*◌, ◌%◌, ◌^◌, ◌≤◌, inl, inr, arith, List, [], ◌∷◌, Bool-cases, Option-cases, length,
}

pub next-le : (fmt : List ℕ) → length (next fmt) ≤ length fmt
next-le [] = omega arith
next-le (c ∷ cs) = omega arith

parse_num-le : (n : ℕ) (fmt : List ℕ) → length (parse_num n fmt).1 ≤ length fmt
unfolding parse_num
parse_num-le n [] = omega arith
parse_num-le n (c ∷ cs) = elim (Bool-cases (is_digit c)) [
  | inl digit ↦ rw digit (omega (arith, parse_num-le ((n * 10 + c - 48) % 2 ^ 32) cs))
  | inr other ↦ rw other (omega arith)
]

parse_flags-le : (flags : Flags) (fmt : List ℕ) → length (parse_flags flags fmt).1 ≤ length fmt
unfolding parse_flags
parse_flags-le flags [] = omega arith
parse_flags-le flags (c ∷ cs) = elim (Option-cases (flag_of c flags)) [
  | inl none_left ↦ rw (none_left, parse_flags) (omega arith)
  | inr (more, e) ↦ rw (e, parse_flags) (omega (arith, parse_flags-le more cs))
]

parse_width-le : (args : Args) (d : Directive) → length (parse_width args d).fmt ≤ length d.fmt
unfolding parse_width
parse_width-le args d = ground (arith, next-le d.fmt, parse_num-le 0 d.fmt)

parse_percision-le :
    (args : Args) (d : Directive) → length (parse_percision args d).fmt ≤ length d.fmt
unfolding parse_percision
parse_percision-le args d =
    ground (arith, next-le d.fmt, next-le (next d.fmt), parse_num-le 0 (next d.fmt))

parse_length-le : (d : Directive) → length (parse_length d).fmt ≤ length d.fmt
unfolding parse_length
parse_length-le d = ground (arith, next-le d.fmt, next-le (next d.fmt))

pub parse-le : (args : Args) (arg : ℕ) (fmt : List ℕ) → length (parse args arg fmt).fmt ≤ length fmt
unfolding parse
parse-le args arg fmt =
    let d0 : Directive = start arg (parse_flags no_flags fmt) in
    let d1 : Directive = parse_width args d0 in
    let first = parse_flags-le no_flags fmt in
    let second = parse_width-le args d0 in
    let third = parse_percision-le args d1 in
    let fourth = parse_length-le (parse_percision args d1) in
    omega (arith, first, second, third, fourth)
