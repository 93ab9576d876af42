-- ===== src/Examples/Screens.antt =====
-- A screen with the cursor on its bottom row.
use liqui_dos.Common.{ℕ, ◌*◌, ◌≤◌, ◌≡◌, arith, []}
use liqui_dos.Vga.{Screen, width, height, putc}
use liqui_dos.Vga.Cursor.{IsOnScreen, putc-IsOnScreen}

abbrev screen : Screen
screen = record { fg_color = 15; bg_color = 0; x = 7; y = 24; buffer = λ j. j; ports = [] }

screen-IsOnScreen : IsOnScreen screen
screen-IsOnScreen = record { column = omega arith; row = omega arith }

putc-IsOnScreen_example :
    IsOnScreen (putc b'A' screen)
    × ((j : ℕ) → height * width ≤ j → (putc b'A' screen).buffer j ≡ screen.buffer j)
putc-IsOnScreen_example = putc-IsOnScreen b'A' screen screen-IsOnScreen
