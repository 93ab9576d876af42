-- ===== src/Serial/Ready.antt =====
-- The serial port where its transmitter becomes ready again and again.
use Prim.Native.Nat.{bit_and}
use mathlib.Core.List.{append_assoc, append-nil}
use liqui_dos.Common.{
  ℕ, zero, suc, ◌+◌, ◌-◌, ◌%◌, ◌^◌, ◌<◌, ◌≡◌, ◌≢◌, inl, inr, refl, ap, ◌∙◌, arith, some, [], ◌∷◌,
  ◌++◌, ◌==◌, Bool-cases, false,
}
use liqui_dos.Strings.{Bytes}
use liqui_dos.Strings.Length.{IsText, moved}
use liqui_dos.Platform.{Ports, com1}
use liqui_dos.Serial.{Line, wait, write, console_log, transmit_empty_bit}

-- The wait ends at a read that shows the bit, within the fuel.
wait-some :
    (fuel bit : ℕ) (status : ℕ → ℕ) (reads k : ℕ)
    → k < fuel
    → bit_and (status (reads + k)) bit ≢ 0
    → (r : ℕ) × (wait fuel bit status reads ≡ some r) × (reads < r)
unfolding wait
wait-some zero bit status reads k l shows = absurd (omega arith)
wait-some (suc fuel) bit status reads k l shows =
    elim (Bool-cases (bit_and (status reads) bit == 0)) [
      | inl clear ↦
          let later : reads + k ≡ reads + 1 + (k - 1) = ground (arith, shows) in
          let (r, e, up) =
            wait-some fuel bit status (reads + 1) (k - 1) (ground (arith, shows))
              (λ z. shows (ap (λ t. bit_and (status t) bit) later ∙ z)) in
          (r, rw clear e, omega (arith, up))
      | inr set ↦ (reads + 1, rw set refl, omega arith)
    ]

-- What the port gets for the text at `s` of `n` bytes.
abbrev pub sent : Bytes → ℕ → ℕ → Ports
sent m s zero = []
sent m s (suc n) = (com1, m s % 2 ^ 8) ∷ sent m (s + 1) n

-- Among any `d` reads of the status in a row one shows that the transmitter is empty.
abbrev pub IsServed : ℕ → (ℕ → ℕ) → Type 0
IsServed d status = (t : ℕ) → (k : ℕ) × (k < d) × (bit_and (status (t + k)) transmit_empty_bit ≢ 0)

-- console_log of a text ends, where the transmitter becomes empty within the fuel of each wait, and
-- the port gets the bytes of the text, each once and in their order.
pub console_log-sent :
    (n d : ℕ) (status : ℕ → ℕ) (m : Bytes) (s left : ℕ) (line : Line)
    → IsServed d status
    → IsText m s n
    → n < left
    → (r : ℕ) × (console_log left d status m s line
        ≡ some (record { reads = r; ports = line.ports ++ sent m s n }))
unfolding console_log write
console_log-sent n d status m s zero line served text l = absurd (omega arith)
console_log-sent zero d status m s (suc left) line served text l =
    let nul : m s ≡ 0 = ap m (let e : s ≡ s + 0 = omega arith in e) ∙ text.nul in
    (line.reads, rw nul (rw (append-nil line.ports) refl))
console_log-sent (suc n) d status m s (suc left) line served text l =
    let full : (m s == 0) ≡ false =
      ground (arith, text.before 0 (omega arith), ap m (let e : s ≡ s + 0 = omega arith in e)) in
    let (k, near, shows) = served line.reads in
    let (reads, waited, up) = wait-some d transmit_empty_bit status line.reads k near shows in
    let next : Line = record { reads = reads; ports = line.ports ++ (com1, m s % 2 ^ 8) ∷ [] } in
    let (r, e) =
      console_log-sent n d status m (s + 1) left next served
        (moved m s (s + 1) (suc n) 1 n text refl (omega arith)) (omega arith) in
    (
      r,
      rw (full, waited)
          (e ∙ ap (λ p. some (record { reads = r; ports = p })) (append_assoc line.ports _ _)),
    )
