-- ===== src/Printf/Run.antt =====
-- A whole run of ssprintf of lib/libc/vsprintf.c.
use mathlib.Core.Option
use liqui_dos.Printf.{f, emit, Out, minus_one}
use liqui_dos.Printf.Directive.{Directive, Args, State, Step, Access, went, refused}
use liqui_dos.Common.{
  ℕ, ◌+◌, ◌%◌, ◌^◌, ◌<◌, ◌≡◌, ◌⊎◌, refl, arith, Option, some, List, [], ◌∷◌, length,
}
use liqui_dos.Printf.Replay.{IsKept}
use liqui_dos.Printf.Kept.{From}

module _ {ℓ} {S : Type ℓ} (g : ℕ → S → S) (access : Access S) (fuel : ℕ) (args : Args)
    (Holds : S → Type ℓ) (kept : IsKept g access fuel args Holds) where
  -- A round that refuses the directive or goes on with `rest`.
  Round : Out S → List ℕ → Option (Step S) → Type ℓ
  Round out rest r =
      (r ≡ some refused)
      ⊎ ((st : State S) × (r ≡ some (went st rest)) × From g access fuel args Holds kept out st.out)

  -- The loop ends, with the number of characters or with -1.
  Ended : Out S → Option (ℕ × State S) → Type ℓ
  Ended out r =
      (ret : ℕ) × (st : State S) × (r ≡ some (ret, st))
      × ((ret ≡ (st.out).written) ⊎ (ret ≡ minus_one))
      × From g access fuel args Holds kept out st.out

-- The characters handed over one after the other.
unfoldable pub run {ℓ} : {S : Type ℓ} → (ℕ → S → S) → List ℕ → S → S
run g [] s = s
run g (c ∷ cs) s = run g cs (g c s)

pub emit-run {ℓ} :
    {S : Type ℓ} (g : ℕ → S → S) (cs : List ℕ) (out : Out S)
    → out.written < 2 ^ 32
    → ((emit g cs out).sink ≡ run g cs out.sink)
      × ((emit g cs out).written ≡ (out.written + length cs) % 2 ^ 32)
unfolding emit f run
emit-run g [] out l = (refl, omega arith)
emit-run g (c ∷ cs) out l =
    let (sinks, count) = emit-run g cs (f g c out) (omega arith) in (sinks, omega (arith, count))
