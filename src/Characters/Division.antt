-- ===== src/Characters/Division.antt =====
-- ldiv of numbers that are not negative.
use liqui_dos.Common.{ℕ, ◌/◌, ◌%◌, ◌^◌, ◌<◌, ◌≡◌, refl, true, false, arith, some, ltb, leb, ◌==◌}
use native.Mathlib.Nat.{mod-lt}
use liqui_dos.Characters.{ldiv, labs}

-- For numbers that are not negative `ldiv` divides; its correction of the remainder does nothing.
ldiv_lem :
    (n d : ℕ)
    → n < 2 ^ 31
    → 0 < d
    → d < 2 ^ 31
    → ldiv n d ≡ some (record { quot = n / d; rem = n % d })
unfolding ldiv labs
ldiv_lem n d small pos low =
    let n_plain : leb (2 ^ 31) n ≡ false = ground arith in
    let d_plain : leb (2 ^ 31) d ≡ false = ground arith in
    let n_low : ltb n (2 ^ 31) ≡ true = ground arith in
    let d_low : ltb d (2 ^ 31) ≡ true = ground arith in
    let some_d : (d == 0) ≡ false = ground arith in
    let not_least : (n == 2 ^ 31) ≡ false = ground arith in
    let rest : n % d < d = mod-lt n pos in
    let rem_plain : leb (2 ^ 31) (n % d) ≡ false = ground (arith, rest) in
    rw (n_plain, d_plain, n_low, d_low, some_d, not_least) (rw rem_plain refl)
