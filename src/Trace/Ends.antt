-- ===== src/Trace/Ends.antt =====
-- The length of a stack trace.
use mathlib.Core.Option
use liqui_dos.Common.{
  ℕ, zero, suc, ◌+◌, ◌-◌, ◌*◌, ◌≤◌, ◌≡◌, inl, inr, refl, ap, Bool, true, false, arith, some, List,
  [], ◌∷◌, if◌then◌else◌, Bool-cases, length,
}
use liqui_dos.Strings.{Bytes}
use liqui_dos.Elf.{Context}
use liqui_dos.Loader.{stack_bottom}
use liqui_dos.Trace.{Call, call_at, in_stack, walk_stack, call_stack_trace}

module _ (m : Bytes) (ctx : Context) (unknown : ℕ) (word : ℕ → ℕ) where
  -- The frame pointer that the trace reads in round `n`.
  unfoldable pub frame : ℕ → ℕ → ℕ
  frame zero ebp = ebp
  frame (suc n) ebp = frame n (word ebp)

  -- Of the frame pointers that the trace follows each is at least 8 bytes below its caller's.
  abbrev pub IsAscending : ℕ → Type 0
  IsAscending start =
      (n : ℕ)
      → ((k : ℕ) → k ≤ suc n → in_stack (frame k start) ≡ true)
      → frame n start + 8 ≤ frame (suc n) start

  -- The rounds from the second one on.
  IsAscending-rest : (ebp : ℕ) → in_stack ebp ≡ true → IsAscending ebp → IsAscending (word ebp)
  unfolding frame
  IsAscending-rest ebp inside up n all = up (suc n) earlier
    where
      earlier : (k : ℕ) → k ≤ suc (suc n) → in_stack (frame k ebp) ≡ true
      earlier zero l = inside
      earlier (suc k) l = all k (omega arith)

  IsAscending-first :
      (ebp : ℕ)
      → in_stack ebp ≡ true
      → in_stack (word ebp) ≡ true
      → IsAscending ebp
      → ebp + 8 ≤ word ebp
  unfolding frame
  IsAscending-first ebp inside inside' up = up 0 both
    where
      both : (k : ℕ) → k ≤ 1 → in_stack (frame k ebp) ≡ true
      both zero l = inside
      both (suc zero) l = inside'
      both (suc (suc k)) l = absurd (omega arith)

  walk_stack-out :
      (ebp : ℕ) → in_stack ebp ≡ false → walk_stack 513 m ctx unknown word ebp ≡ some []
  unfolding walk_stack
  walk_stack-out ebp out = rw out refl

  walk_stack-ends :
      (fuel ebp : ℕ)
      → IsAscending ebp
      → (in_stack ebp ≡ true → stack_bottom ≤ ebp + 8 * fuel)
      → (cs : List Call) × (walk_stack (suc fuel) m ctx unknown word ebp ≡ some cs)
        × (length cs ≤ fuel)
  unfolding walk_stack
  walk_stack-ends zero ebp up l =
      let out : in_stack ebp ≡ false = ground arith in ([], rw out refl, omega arith)
  walk_stack-ends (suc fuel) ebp up l = elim (Bool-cases (in_stack ebp)) [
    | inl inside ↦
        let (cs, e, few) =
          walk_stack-ends fuel (word ebp) (IsAscending-rest ebp inside up)
            (λ next. omega (arith, l inside, IsAscending-first ebp inside next up)) in
        (
          call_at m ctx unknown (word (ebp + 4)) ∷ cs,
          rw inside (
              ap (λ o. Option.map (λ (r : List Call). call_at m ctx unknown (word (ebp + 4)) ∷ r) o)
                e),
          omega (arith, few),
        )
    | inr outside ↦ ([], rw outside refl, omega arith)
  ]

  -- Where of the frame pointers that the trace follows within the last page of the stack each is at
  -- least 8 bytes below the next, the trace ends within 513 rounds and has at most 512 calls.
  pub call_stack_trace-ends :
      (ebp own : ℕ) (from_here : Bool)
      → IsAscending (if from_here then own - 8 else ebp)
      → (cs : List Call) × (call_stack_trace 513 m ctx unknown word ebp from_here own ≡ some cs)
        × (length cs ≤ 512)
  unfolding call_stack_trace
  call_stack_trace-ends ebp own from_here up =
      let start : ℕ = if from_here then own - 8 else ebp in
      elim (Bool-cases (in_stack start)) [
        | inl inside ↦ walk_stack-ends 512 start up (λ _. ground arith)
        | inr outside ↦ ([], walk_stack-out start outside, omega arith)
      ]
