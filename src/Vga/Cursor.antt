-- ===== src/Vga/Cursor.antt =====
-- Lemmas on the cursor of the kernel's screen.
use liqui_dos.Common.{
  ℕ, ◌+◌, ◌-◌, ◌*◌, ◌%◌, ◌^◌, ◌≤◌, ◌<◌, ◌≡◌, ◌⊎◌, inl, inr, refl, ◌∙◌, arith, ltb, leb,
  if◌then◌else◌, Bool-cases,
}
use Prim.Native.Nat.{bit_and}
use liqui_dos.Common.Bits.{bit_and_high}
use liqui_dos.Vga.{
  Screen, width, height, vga_entry, scroll, putc, put_char, wrap_line, scroll_up, move_rows,
}
use liqui_dos.Vga.Frame.{move_rows_lem, fill_cells_lem}

pub record IsOnScreen (s : Screen) : Type 0 where
  pub column : s.x < width
  pub row : s.y < height

-- After the character, the cursor is at most one column or one row off the screen, and only a
-- cell of the screen is written.
record IsNear (s s' : Screen) : Type 0 where
  column : s'.x ≤ width
  row : s'.y ≤ height
  corner : (s'.x < width) ⊎ (s'.y < height)
  outside : (j : ℕ) → height * width ≤ j → s'.buffer j ≡ s.buffer j

put_char-IsNear : (c : ℕ) (s : Screen) → IsOnScreen s → IsNear s (put_char c s)
unfolding put_char
put_char-IsNear c s h =
    let tab : bit_and (s.x + 8) (2 ^ 32 - 1 - (2 ^ 3 - 1)) ≡ s.x + 8 - (s.x + 8) % 2 ^ 3 =
      bit_and_high 32 3 (s.x + 8) (omega arith) (omega arith) in
    record {
      column = ground (arith, tab);
      row = ground arith;
      corner = ground (arith, tab);
      outside = λ j k. ground arith;
    }

record IsWrapped (s s' : Screen) : Type 0 where
  column : s'.x < width
  row : s'.y ≤ height
  outside : (j : ℕ) → height * width ≤ j → s'.buffer j ≡ s.buffer j

wrap_line-IsWrapped : (s s' : Screen) → IsNear s s' → IsWrapped s (wrap_line s')
unfolding wrap_line
wrap_line-IsWrapped s s' h = record {
  column = ground (arith, h.column);
  row = ground (arith, h.row, h.corner, h.column);
  outside = λ j k. ground (arith, h.outside j k);
}

pub scroll_up_lem :
    (s : Screen) (j : ℕ)
    → (scroll_up s).buffer j ≡ (
        if ltb j 1920
        then s.buffer (j + width)
        else (if ltb j 2000 then vga_entry s b' ' else s.buffer j))
unfolding scroll_up
scroll_up_lem s j =
    fill_cells_lem width 1920 (vga_entry s b' ') (move_rows 1920 0 s.buffer) j
    ∙ ground (arith, move_rows_lem 1920 0 s.buffer j)

pub scroll_up_cursor : (s : Screen) → ((scroll_up s).x ≡ 0) × ((scroll_up s).y ≡ 24)
unfolding scroll_up
scroll_up_cursor s = (refl, refl)

scroll_up-IsOnScreen : (s : Screen) → IsOnScreen (scroll_up s)
unfolding scroll_up
scroll_up-IsOnScreen s = record { column = omega arith; row = omega arith }

scroll-IsOnScreen :
    (s s' : Screen)
    → IsWrapped s s'
    → IsOnScreen (scroll s') × ((j : ℕ) → height * width ≤ j → (scroll s').buffer j ≡ s.buffer j)
unfolding scroll
scroll-IsOnScreen s s' h = elim (Bool-cases (leb height s'.y)) [
  | inl below ↦
      rw below (scroll_up-IsOnScreen s', λ j k. scroll_up_lem s' j ∙ ground (arith, h.outside j k))
  | inr above ↦ rw above (record { column = h.column; row = ground arith }, h.outside)
]

-- From a cursor on the screen, `putc` of any character leaves it on the screen and writes no cell
-- outside the 25 rows of 80.
pub putc-IsOnScreen :
    (c : ℕ) (s : Screen)
    → IsOnScreen s
    → IsOnScreen (putc c s) × ((j : ℕ) → height * width ≤ j → (putc c s).buffer j ≡ s.buffer j)
unfolding putc
putc-IsOnScreen c s h =
    let (on, outside) =
      scroll-IsOnScreen s (wrap_line (put_char c s))
        (wrap_line-IsWrapped s (put_char c s) (put_char-IsNear c s h)) in
    (record { column = on.column; row = on.row }, outside)
