-- ===== src/Serial.antt =====
-- platform/pc/serial.cc and console_log of core/console.cc over ConsoleImpl::log. The line status
-- register is a function from the number of its reads to the answer; a wait is on fuel, and `none`
-- is a wait that goes on.
pub mod Ready
use Prim.Native.Nat.{bit_and}
use liqui_dos.Common.{
  ℕ, zero, suc, ◌+◌, ◌%◌, ◌^◌, Option, none, some, List, [], ◌∷◌, ◌++◌, ◌==◌, if◌then◌else◌,
}
use liqui_dos.Strings.{Bytes}
use liqui_dos.Mmu.{◌>>=◌}
use liqui_dos.Platform.{Ports, com1}

-- The reads of the status so far, and the writes to the ports.
pub record Line : Type 0 where
  pub reads : ℕ
  pub ports : Ports

abbrev pub received_bit : ℕ
received_bit = 1

abbrev pub transmit_empty_bit : ℕ
transmit_empty_bit = 0x20

-- `while((inb(port + 5) & bit) == 0);`: the number of reads after it.
unfoldable pub wait : ℕ → ℕ → (ℕ → ℕ) → ℕ → Option ℕ
wait zero bit status reads = none
wait (suc fuel) bit status reads =
    let rest = wait fuel bit status (reads + 1) in
    if bit_and (status reads) bit == 0 then rest else some (reads + 1)

-- `input` is what the data register gives after so many reads of the status.
unfoldable pub read : ℕ → (ℕ → ℕ) → (ℕ → ℕ) → Line → Option (ℕ × Line)
unfolding wait
read fuel status input s = wait fuel received_bit status s.reads >>= λ reads.
    some (input reads, record s { reads = reads })

unfoldable pub write : ℕ → (ℕ → ℕ) → ℕ → ℕ → Line → Option Line
unfolding wait
write fuel status port a s = wait fuel transmit_empty_bit status s.reads >>= λ reads.
    some (record { reads = reads; ports = s.ports ++ (port, a % 2 ^ 8) ∷ [] })

-- `console_log`, with fuel for the text and for each wait.
unfoldable pub console_log : ℕ → ℕ → (ℕ → ℕ) → Bytes → ℕ → Line → Option Line
console_log zero fuel status m s line = none
console_log (suc left) fuel status m s line =
    let next = write fuel status com1 (m s) line >>= console_log left fuel status m (s + 1) in
    if m s == 0 then some line else next
