-- ===== src/Vga/Scroll.antt =====
-- Lemmas on the bottom row of the kernel's and of the loader's screen.
use liqui_dos.Common.{
  ℕ, ◌+◌, ◌*◌, ◌%◌, ◌^◌, ◌≤◌, ◌<◌, ◌≡◌, refl, true, false, ap, ◌∙◌, arith, ltb, leb, ◌==◌,
  if◌then◌else◌,
}
use liqui_dos.Vga.{
  Screen, width, height, write_cell, vga_entry, is_printable, scroll, scroll_up, putc, put_char,
  wrap_line, console_emit, console_upd,
}
use liqui_dos.Vga.Cursor.{scroll_up_lem, scroll_up_cursor}

put_newline : (s : Screen) → put_char 10 s ≡ record s { x = 0; y = (s.y + 1) % 2 ^ 8 }
unfolding put_char
put_newline s = refl

wrap_none : (s : Screen) → s.x < width → wrap_line s ≡ s
unfolding wrap_line
wrap_none s h = let inside : leb width s.x ≡ false = ground arith in rw inside refl

put_printable :
    (c : ℕ) (s : Screen)
    → is_printable c ≡ true
    → put_char c s ≡ record s {
      buffer = write_cell s.buffer (s.y * width + s.x) (vga_entry s c);
      x = (s.x + 1) % 2 ^ 8;
    }
unfolding put_char
put_printable c s h =
    let back : (c == 8) ≡ false = ground arith in
    let tab : (c == 9) ≡ false = ground arith in
    let feed : (c == 13) ≡ false = ground arith in
    let line : (c == 10) ≡ false = ground arith in rw (back, tab, feed, line, h) refl

scroll_at_end : (s : Screen) → height ≤ s.y → scroll s ≡ scroll_up s
unfolding scroll
scroll_at_end s h = let below : leb height s.y ≡ true = ground arith in rw below refl

-- A newline on the bottom row moves each row up by one, blanks the bottom row and leaves the cursor
-- at its start.
pub putc-newline :
    (s : Screen)
    → s.y ≡ 24
    → ((j : ℕ)
        → (putc 10 s).buffer j ≡ (
            if ltb j 1920
            then s.buffer (j + width)
            else (if ltb j 2000 then vga_entry s b' ' else s.buffer j)))
      × ((putc 10 s).x ≡ 0)
      × ((putc 10 s).y ≡ 24)
unfolding putc vga_entry
putc-newline s last =
    let down : Screen = record s { x = 0; y = (s.y + 1) % 2 ^ 8 } in
    let moved : scroll (wrap_line (put_char 10 s)) ≡ scroll_up down =
      rw (put_newline s)
        (ap scroll (wrap_none down (omega arith)) ∙ scroll_at_end down (omega arith)) in
    (
      (λ j. ap (λ (t : Screen). t.buffer j) moved ∙ scroll_up_lem down j),
      ap Screen.x moved ∙ (scroll_up_cursor down).0,
      ap Screen.y moved ∙ (scroll_up_cursor down).1,
    )

wrap_line_buffer : (s : Screen) (j : ℕ) → (wrap_line s).buffer j ≡ s.buffer j
unfolding wrap_line
wrap_line_buffer s j = ground arith

written :
    (c : ℕ) (t : Screen)
    → t.y ≡ 25
    → t.x ≡ 0
    → write_cell t.buffer (t.y * width + t.x) (vga_entry t c) (width * height) ≡ vga_entry t c
written c t row column = ground arith

-- The loader writes a character that follows a newline on the bottom row behind the frame's
-- last cell.
pub console_emit-newline :
    (c : ℕ) (s : Screen)
    → s.y ≡ 24
    → is_printable c ≡ true
    → (console_emit c (console_emit 10 s)).buffer (width * height) ≡ vga_entry s c
unfolding console_emit vga_entry
console_emit-newline c s last shown =
    let down : Screen = record s { x = 0; y = (s.y + 1) % 2 ^ 8 } in
    let first : wrap_line (put_char 10 s) ≡ down =
      rw (put_newline s) (wrap_none down (omega arith)) in
    let t : Screen = console_upd (wrap_line (put_char 10 s)) in
    wrap_line_buffer (put_char c t) (width * height)
    ∙ ap (λ (u : Screen). u.buffer (width * height)) (put_printable c t shown)
    ∙ written c t (ap Screen.y first ∙ omega arith) (ap Screen.x first)
    ∙ ap (λ (u : Screen). vga_entry u c) first
