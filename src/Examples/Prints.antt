-- ===== src/Examples/Prints.antt =====
-- Formatted output: the formats "%d!" and "%s!", and streams with empty buffers.
use liqui_dos.Common.{
  ℕ, ◌+◌, ◌-◌, ◌^◌, ◌≤◌, ◌<◌, ◌≡◌, inl, inr, refl, true, false, ◌&&◌, arith, some, List, [], ◌∷◌,
  ◌++◌, ◌==◌, if◌then◌else◌, length, replicate,
}
use liqui_dos.Strings.{Bytes, strlen, strcpy}
use liqui_dos.Strings.Move.{covers}
use liqui_dos.Strings.Length.{IsText, strlen-IsText}
use liqui_dos.Strings.Copy.{strcpy-IsText}
use liqui_dos.Printf.{Out, minus_one, is_negative, emit, num}
use liqui_dos.Printf.Directive.{Args}
use liqui_dos.Printf.Digits.{IsNumber, magnitude, plain_flags, num-IsNumber}
use liqui_dos.Printf.Run.{run}
use liqui_dos.Stream.{Streams, Config, stream_out, log_org}
use liqui_dos.Stream.Line.{stream_out-line, stream_out-overflow}

abbrev push : ℕ → List ℕ → List ℕ
push c cs = cs ++ c ∷ []

abbrev out : Out (List ℕ)
out = record { sink = []; written = 0 }

num-IsNumber_example :
    (cs : List ℕ) × (num push (2 ^ 64 - 42) 10 (plain_flags true false) minus_one minus_one out
      ≡ emit push ((if is_negative (2 ^ 64 - 42) && true then b'-' ∷ [] else []) ++ cs) out)
    × IsNumber 10 (magnitude (plain_flags true false) (2 ^ 64 - 42)) cs
num-IsNumber_example =
    num-IsNumber push true false (2 ^ 64 - 42) 10 out (inr (inl refl)) (omega arith)

-- "ab" stands at 16, and every other byte is 0.
abbrev bytes : Bytes
bytes a = if a == 16 then b'a' else (if a == 17 then b'b' else 0)

abbrev args : Args
args k = 16

-- The text at 16 ends at 23 at the latest, and the buffer stands behind it.
abbrev Apart : Bytes × ℕ → Type 0
Apart (m, buf) = (m 23 ≡ 0) × (24 ≤ buf)

abbrev fmt : List ℕ
fmt = b'%' ∷ b's' ∷ b'!' ∷ []

bytes-IsText : IsText bytes 16 2
bytes-IsText = record { before = λ i l. ground arith; nul = refl }

strlen-IsText_example : strlen 3 bytes 16 ≡ some 2
strlen-IsText_example = strlen-IsText 3 bytes 16 2 (λ q. ground arith) bytes-IsText (omega arith)

strcpy-IsText_example :
    (m' : Bytes) × (strcpy 3 32 16 bytes ≡ some m')
    × ((q : ℕ) → m' q ≡ (if covers 32 2 q then bytes (16 + (q - 32)) else bytes q))
strcpy-IsText_example =
    strcpy-IsText 3 32 16 2 bytes (λ q. ground arith) bytes-IsText (omega arith) (inr (omega arith))

abbrev config : Config
config = record { log_enable = true; log_all_output = false }

abbrev streams : Streams
streams = record { org = λ a. 7; out_ptr = 0; log_ptr = 512; emitted = []; logged = [] }

abbrev line : List ℕ
line = b'h' ∷ b'i' ∷ []

stream_out-line_example :
    (s' : Streams) × (run (stream_out config) (line ++ b'\n' ∷ []) streams ≡ s')
    × (s'.emitted ≡ [] ++ (line ++ b'\n' ∷ []))
    × (s'.out_ptr ≡ 0)
    × ((q : ℕ) → length line + 1 < q → s'.org q ≡ 7)
stream_out-line_example = stream_out-line config line streams refl refl refl (omega arith)

stream_out-overflow_example :
    (s' : Streams) × (run (stream_out config) (replicate 512 b'x' ++ b'y' ∷ []) streams ≡ s')
    × (s'.emitted ≡ [] ++ replicate 512 b'x')
    × (s'.org log_org ≡ b'y')
    × (s'.org (log_org + 1) ≡ 0)
stream_out-overflow_example =
    stream_out-overflow config (replicate 512 b'x') b'y' streams refl refl refl refl
