-- ===== src/Printf/Replay.antt =====
-- The events of a run of ssprintf of lib/libc/vsprintf.c in their order: a character handed over, or a
-- store of the count for `%n`.
use mathlib.Core.Option
use liqui_dos.Strings.{Bytes}
use liqui_dos.Printf.{Out, f}
use liqui_dos.Printf.Directive.{Args, Access, text_at}
use liqui_dos.Common.{
  ℕ, suc, ◌+◌, ◌%◌, ◌^◌, ◌<◌, ◌≡◌, ◌≢◌, refl, true, false, ◌∙◌, arith, none, some, List, [], ◌∷◌,
  ◌++◌, ◌==◌, if◌then◌else◌,
}

-- `stored k` is the store at the address in the k-th argument word.
pub data Event : Type 0 where
  handed : ℕ → Event
  stored : ℕ → Event

unfoldable pub handed_count : List Event → ℕ
handed_count [] = 0
handed_count (handed c ∷ es) = suc (handed_count es)
handed_count (stored k ∷ es) = handed_count es

module _ {ℓ} {S : Type ℓ} (g : ℕ → S → S) (access : Access S) (args : Args) where
  unfoldable pub store_count : ℕ → Out S → Out S
  store_count k out = record out { sink = access.store_at (args k % 2 ^ 32) out.written out.sink }

  -- The events one after the other. What `%n` stores is the count at its place.
  unfoldable pub replay : List Event → Out S → Out S
  unfolding f store_count
  replay [] out = out
  replay (handed c ∷ es) out = replay es (f g c out)
  replay (stored k ∷ es) out = replay es (store_count k out)

  pub replay-append :
      (xs ys : List Event) (out : Out S) → replay (xs ++ ys) out ≡ replay ys (replay xs out)
  unfolding replay
  replay-append [] ys out = refl
  replay-append (handed c ∷ xs) ys out = replay-append xs ys (f g c out)
  replay-append (stored k ∷ xs) ys out = replay-append xs ys (store_count k out)

  pub replay-written :
      (es : List Event) (out : Out S)
      → out.written < 2 ^ 32
      → (replay es out).written ≡ (out.written + handed_count es) % 2 ^ 32
  unfolding replay f store_count handed_count
  replay-written [] out l = omega arith
  replay-written (handed c ∷ es) out l = replay-written es (f g c out) (omega arith) ∙ omega arith
  replay-written (stored k ∷ es) out l = replay-written es (store_count k out) l

-- The states that the characters and the stores lead to: a character changes no text of an argument.
pub record IsKept {ℓ} {S : Type ℓ} (g : ℕ → S → S) (access : Access S) (fuel : ℕ) (args : Args)
    (Holds : S → Type ℓ) : Type ℓ where
  pub handing : (c : ℕ) (s : S) → Holds s → Holds (g c s)
  pub storing : (k v : ℕ) (s : S) → Holds s → Holds (access.store_at (args k % 2 ^ 32) v s)
  pub text_ends :
      (k : ℕ) (s : S)
      → Holds s
      → (cs : List ℕ) × (text_at fuel (access.memory s) (args k % 2 ^ 32) ≡ some cs)
  pub text_kept :
      (c k : ℕ) (s : S)
      → Holds s
      → text_at fuel (access.memory (g c s)) (args k % 2 ^ 32)
        ≡ text_at fuel (access.memory s) (args k % 2 ^ 32)

pub text_rest :
    (fuel : ℕ) (m : Bytes) (p c : ℕ) (cs : List ℕ)
    → text_at (suc fuel) m p ≡ some (c ∷ cs)
    → ((m p == 0) ≡ false) × (m p ≡ c) × (text_at fuel m (p + 1) ≡ some cs)
unfolding text_at
text_rest fuel m p c cs e =
    elim (text_at fuel m (p + 1))
        as (λ r.
          (if m p == 0 then some [] else (elim r [ none ↦ none | some ds ↦ some (m p ∷ ds) ]))
            ≡ some (c ∷ cs)
          → ((m p == 0) ≡ false) × (m p ≡ c) × (r ≡ some cs)) [
            | none ↦ λ q. grind arith
            | some ds ↦ λ q. grind arith
          ]
      e

pub text_none :
    (fuel : ℕ) (m : Bytes) (p : ℕ) → text_at (suc fuel) m p ≡ some [] → (m p == 0) ≡ true
unfolding text_at
text_none fuel m p e =
    elim (text_at fuel m (p + 1))
        as (λ r.
          (if m p == 0 then some [] else (elim r [ none ↦ none | some ds ↦ some (m p ∷ ds) ]))
            ≡ some []
          → (m p == 0) ≡ true) [ none ↦ λ q. grind arith | some ds ↦ λ q. grind arith ]
      e

pub text_zero : (m : Bytes) (p : ℕ) (cs : List ℕ) → text_at 0 m p ≢ some cs
unfolding text_at
text_zero m p cs e = Option.none-ne-some cs e
