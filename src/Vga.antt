-- ===== src/Vga.antt =====
-- platform/pc/vga.cc: the kernel's text screen, and loader/x86/vga.cc: the loader's. A screen has
-- the globals of the file, the frame buffer as a function from index to cell, and the writes to
-- ports, oldest first. A `char` is a byte, and `c >= ' '` compares it as a signed number.
pub mod Frame
pub mod Cursor
pub mod Scroll
use Prim.Native.Nat.{bit_and, bit_or}
use liqui_dos.Common.{
  ℕ, zero, suc, ◌+◌, ◌-◌, ◌*◌, ◌/◌, ◌%◌, ◌^◌, Bool, not, ◌&&◌, List, [], ◌∷◌, ◌++◌, ltb, leb, ◌==◌,
  if◌then◌else◌,
}

pub record Screen : Type 0 where
  pub fg_color : ℕ
  pub bg_color : ℕ
  pub x : ℕ
  pub y : ℕ
  pub buffer : ℕ → ℕ
  pub ports : List (ℕ × ℕ)

abbrev pub width : ℕ
width = 80

abbrev pub height : ℕ
height = 25

unfoldable pub outb : ℕ → ℕ → Screen → Screen
outb port v s = record s { ports = s.ports ++ (port, v) ∷ [] }

abbrev pub write_cell : (ℕ → ℕ) → ℕ → ℕ → ℕ → ℕ
write_cell b i v j = if j == i then v else b j

unfoldable pub vga_entry_color : Screen → ℕ
vga_entry_color s = bit_or (bit_and s.fg_color 0x0F) (s.bg_color * 2 ^ 4) % 2 ^ 8

unfoldable pub vga_entry : Screen → ℕ → ℕ
unfolding vga_entry_color
vga_entry s c = bit_or c (vga_entry_color s * 2 ^ 8) % 2 ^ 16

abbrev pub is_printable : ℕ → Bool
is_printable c = leb b' ' c && ltb c 128

-- The cast to `uint8_t` comes before the shift.
unfoldable pub move_cursor : Screen → Screen
unfolding outb
move_cursor s =
    let position = (s.y * width % 2 ^ 16 + s.x) % 2 ^ 16 in
    outb 0x3D5 (position % 2 ^ 8 / 2 ^ 8)
      (outb 0x3D4 0x0E (outb 0x3D5 (position % 2 ^ 8) (outb 0x3D4 0x0F s)))

-- `terminal_buffer[i] = terminal_buffer[i + VGA_WIDTH]`, with `left` rounds to go.
unfoldable pub move_rows : ℕ → ℕ → (ℕ → ℕ) → ℕ → ℕ
move_rows zero i b = b
move_rows (suc left) i b = move_rows left (i + 1) (write_cell b i (b (i + width)))

-- `terminal_buffer[i] = blank`
unfoldable pub fill_cells : ℕ → ℕ → ℕ → (ℕ → ℕ) → ℕ → ℕ
fill_cells zero i blank b = b
fill_cells (suc left) i blank b = fill_cells left (i + 1) blank (write_cell b i blank)

-- The cursor is left on the last line.
unfoldable pub scroll_up : Screen → Screen
scroll_up s =
    let blank = vga_entry s b' ' in
    let moved = move_rows ((height - 1) * width) 0 s.buffer in
    record s { buffer = fill_cells width ((height - 1) * width) blank moved; y = height - 1; x = 0 }

unfoldable pub scroll : Screen → Screen
scroll s = if leb height s.y then scroll_up s else s

unfoldable pub clear : ℕ → Screen → Screen
unfolding move_cursor
clear bg s =
    let entry = vga_entry s b' ' in
    move_cursor (record s {
      bg_color = bg;
      buffer = fill_cells (width * height) 0 entry s.buffer;
      y = 0;
      x = 0;
    })

-- The chain of tests on the character.
unfoldable pub put_char : ℕ → Screen → Screen
put_char c s =
    if c == 8 && not (s.x == 0)
    then record s { x = s.x - 1 }
    else (if c == 9
        then record s { x = bit_and (s.x + 8) (2 ^ 32 - 1 - (2 ^ 3 - 1)) % 2 ^ 8 }
        else (if c == 13
            then record s { x = 0 }
            else (if c == 10
                then record s { x = 0; y = (s.y + 1) % 2 ^ 8 }
                else (if is_printable c
                    then record s {
                      buffer = write_cell s.buffer (s.y * width + s.x) (vga_entry s c);
                      x = (s.x + 1) % 2 ^ 8;
                    }
                    else s))))

-- `if(_x >= VGA_WIDTH)`
unfoldable pub wrap_line : Screen → Screen
wrap_line s = if leb width s.x then record s { x = 0; y = (s.y + 1) % 2 ^ 8 } else s

unfoldable pub putc : ℕ → Screen → Screen
unfolding move_cursor
putc c s = move_cursor (scroll (wrap_line (put_char c s)))

-- The loader's cursor update: the position itself has one byte.
unfoldable pub console_upd : Screen → Screen
unfolding outb
console_upd s =
    let position = (s.y * width + s.x) % 2 ^ 8 in
    outb 0x3D5 (position / 2 ^ 8) (outb 0x3D4 0x0E (outb 0x3D5 position (outb 0x3D4 0x0F s)))

-- The loader has no scrolling.
unfoldable pub console_emit : ℕ → Screen → Screen
unfolding console_upd
console_emit c s = console_upd (wrap_line (put_char c s))

unfoldable pub console_puts : List ℕ → Screen → Screen
unfolding console_emit
console_puts [] s = s
console_puts (c ∷ cs) s = console_puts cs (console_emit c s)

-- The screen part of `console_init`; the serial port is set up by further port writes.
unfoldable pub console_init : Screen → Screen
console_init s = record s {
  x = 0;
  y = 0;
  buffer = fill_cells (height * width) 0 (vga_entry s b' ') s.buffer;
}
