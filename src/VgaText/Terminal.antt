-- ===== src/VgaText/Terminal.antt =====
-- What a console of rows and columns does with bytes: the contract of the `write` of `struct console`,
-- kernel/include/console/console.h.
use it_works_os.Base.{ℕ, ◌+◌, ◌-◌, ◌%◌, ◌&&◌, List, [], ◌∷◌, if◌then◌else◌, ◌==◌, ltb}
use it_works_os.VgaText.{vga_cell, vga_cell_clear}

pub record Term : Type 0 where
  pub x : ℕ
  pub y : ℕ
  pub cells : ℕ → ℕ → ℕ

abbrev pub set_cell : ℕ → ℕ → ℕ → Term → Term
set_cell row column v t = record t {
  cells = λ r c. if (r == row) && (c == column) then v else t.cells r c;
}

module _ (width height : ℕ) where
  -- To the start of the next line; from the last one the screen moves up and an empty line comes in.
  abbrev pub line_feed : Term → Term
  line_feed t = if ltb (t.y + 1) height then record t { x = 0; y = t.y + 1 } else record t {
    x = 0;
    cells = λ r c. if ltb (r + 1) height then t.cells (r + 1) c else vga_cell_clear;
  }

  -- `n` columns to the right, or to the next line.
  abbrev pub forward : ℕ → Term → Term
  forward n t = if ltb (t.x + n) width then record t { x = t.x + n } else line_feed t

  -- The cell before the cursor is cleared, also that at the end of the line before.
  abbrev pub erase : Term → Term
  erase t =
      if ltb 0 t.x
      then set_cell t.y (t.x - 1) vga_cell_clear (record t { x = t.x - 1 })
      else if ltb 0 t.y
      then set_cell (t.y - 1) (width - 1) vga_cell_clear (record t { x = width - 1; y = t.y - 1 })
      else t

  unfoldable pub term_byte : ℕ → Term → Term
  term_byte c t =
      if c == 10
      then line_feed t
      else if c == 13
      then record t { x = 0 }
      else if c == 9
      then forward (4 - t.x % 4) t
      else if c == 8
      then erase t
      else forward 1 (set_cell t.y t.x (vga_cell c 0x07 0x00 0) t)

  unfoldable pub term_write : List ℕ → Term → Term
  term_write [] t = t
  term_write (c ∷ cs) t = term_write cs (term_byte c t)
