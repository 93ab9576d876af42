-- ===== src/Characters/Classes.antt =====
-- The classes of lib/libc/ctype.c.
use liqui_dos.Common.{ℕ, ◌^◌, ◌<◌, ◌≡◌, true, arith}
use liqui_dos.Characters.{isdigit, islower, isupper, tolower, toupper}

-- isdigit holds of every int, as the two comparisons are joined by "or".
pub isdigit_lem : (c : ℕ) → c < 2 ^ 32 → isdigit c ≡ true
unfolding isdigit
isdigit_lem c l = ground arith

-- tolower and toupper undo each other on the letters of one case and leave the other case alone.
pub tolower-toupper :
    (c : ℕ)
    → (islower c ≡ true
        → (isupper (toupper c) ≡ true) × (tolower (toupper c) ≡ c) × (tolower c ≡ c))
      × (isupper c ≡ true
          → (islower (tolower c) ≡ true) × (toupper (tolower c) ≡ c) × (toupper c ≡ c))
unfolding islower isupper tolower toupper
tolower-toupper c = (
  λ l. (ground arith, ground arith, ground arith),
  λ u. (ground arith, ground arith, ground arith),
)
