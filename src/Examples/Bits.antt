-- ===== src/Examples/Bits.antt =====
-- The bitmap and its theorems at concrete inputs.
use liqui_dos.Common.{arith}
use liqui_dos.Bitmap.{Words, Bitmap, firstz}
use liqui_dos.Bitmap.Search.{IsFirstClear, bits_in, firstz-IsFirstClear}

-- Bits 2 and 3 of each word are clear.
abbrev words : Words
words _ = 0xFFFFFFF3

abbrev two_words : Bitmap
two_words = record { length = 2; bit_count = 64; bitmap = words }

firstz-IsFirstClear_example : IsFirstClear words 0 (bits_in 2) (firstz two_words)
firstz-IsFirstClear_example = firstz-IsFirstClear two_words (λ i. omega arith) (omega arith)
