-- ===== src/Vga/Frame.antt =====
-- What the screen's loops leave in the frame buffer.
use liqui_dos.Common.{ℕ, zero, suc, ◌+◌, ◌≡◌, Bool, ◌&&◌, ap, ◌∙◌, arith, ltb, leb, if◌then◌else◌}
use liqui_dos.Vga.{width, write_cell, move_rows, fill_cells}

-- Index `j` is one of the `left` from `i` on.
abbrev pub within : ℕ → ℕ → ℕ → Bool
within i left j = leb i j && ltb j (i + left)

pub move_rows_lem :
    (left i : ℕ) (b : ℕ → ℕ) (j : ℕ)
    → move_rows left i b j ≡ (if within i left j then b (j + width) else b j)
unfolding move_rows
move_rows_lem zero i b j = ground arith
move_rows_lem (suc left) i b j =
    let here : (j ≡ i → b (j + width) ≡ b (i + width)) = λ e. ap b (omega arith) in
    move_rows_lem left (i + 1) (write_cell b i (b (i + width))) j ∙ ground (arith, here)

pub fill_cells_lem :
    (left i blank : ℕ) (b : ℕ → ℕ) (j : ℕ)
    → fill_cells left i blank b j ≡ (if within i left j then blank else b j)
unfolding fill_cells
fill_cells_lem zero i blank b j = ground arith
fill_cells_lem (suc left) i blank b j =
    fill_cells_lem left (i + 1) blank (write_cell b i blank) j ∙ ground arith
