-- ===== src/VgaText/Screen.antt =====
-- The invariant of the screen of kernel/drivers/video/vga/vga_text.c: the cursor is inside, and no
-- memory behind the cells is written.
use it_works_os.Base.{
  ℕ, ◌+◌, ◌-◌, ◌*◌, ◌%◌, ◌^◌, ◌≤◌, ◌<◌, ◌≡◌, refl, ◌∙◌, arith, some, List, [], ◌∷◌, ◌==◌, ltb, leb,
  inl, inr, Bool-cases,
}
use it_works_os.Kerror.{ok}
use it_works_os.Port.{Ports}
use it_works_os.VgaText.{
  Vga, vga_cell, vga_cell_clear, cell_index, write_cell, backspace, type_byte, next_line, scroll,
  write_bytes, vga_text_update_cursor, vga_text_console_write,
}
use it_works_os.VgaText.Scroll.{row-le, cell_index_lem, scrolled}

module _ {W : Type 0} where
  -- The cells fit the 32-bit indices, and a tab stop past the end of a row does too.
  pub record IsSized (s : Vga W) : Type 0 where
    pub cells : s.height * s.width < 2 ^ 32
    pub columns : s.width + 4 < 2 ^ 32
    pub rows : s.height < 2 ^ 32

  pub record IsScreen (s : Vga W) : Type 0 where
    pub sized : IsSized s
    pub column : s.cursor_x < s.width
    pub row : s.cursor_y < s.height

  -- From `s` to `s'` only cells of the screen and the cursor have changed.
  pub record Within (s s' : Vga W) : Type 0 where
    pub same_width : s'.width ≡ s.width
    pub same_height : s'.height ≡ s.height
    pub outside : (i : ℕ) → s.height * s.width ≤ i → s'.buffer i ≡ s.buffer i

  -- Between the cases of a byte and the scrolling the cursor may have left its row or the screen.
  pub record IsBetween (s : Vga W) : Type 0 where
    pub sized : IsSized s
    pub column : s.cursor_x < s.width + 4
    pub row : s.cursor_y ≤ s.height
    pub below : s.cursor_y ≡ s.height → s.cursor_x ≡ 0
    pub some_columns : 0 < s.width
    pub some_rows : 0 < s.height

  Within-refl : (s : Vga W) → Within s s
  Within-refl s = record { same_width = refl; same_height = refl; outside = λ i h. refl }

  Within-trans : {a b c : Vga W} → Within a b → Within b c → Within a c
  Within-trans f g = record {
    same_width = g.same_width ∙ f.same_width;
    same_height = g.same_height ∙ f.same_height;
    outside = λ i h. g.outside i (rw (f.same_height, f.same_width) h) ∙ f.outside i h;
  }

  -- A cell of the screen is written.
  write_cell-outside :
      (s : Vga W) (y x v : ℕ)
      → IsSized s
      → y < s.height
      → x < s.width
      → (i : ℕ) → s.height * s.width ≤ i
      → write_cell s.buffer (cell_index s.width y x) v i ≡ s.buffer i
  unfolding write_cell
  write_cell-outside s y x v z hy hx i hi = ground (
    arith,
    cell_index_lem s.width s.height z.cells y x hy hx,
    row-le s.width s.height z.cells y hy,
  )

  -- A cell is written and the cursor is moved.
  abbrev pub put_at : Vga W → ℕ → ℕ → ℕ → ℕ → ℕ → Vga W
  put_at s y x v y' x' = record s {
    cursor_x = x';
    cursor_y = y';
    buffer = write_cell s.buffer (cell_index s.width y x) v;
  }

  put_at-Within :
      (s : Vga W) (y x v y' x' : ℕ)
      → IsSized s
      → y < s.height
      → x < s.width
      → Within s (put_at s y x v y' x')
  put_at-Within s y x v y' x' z hy hx = record {
    same_width = refl;
    same_height = refl;
    outside = write_cell-outside s y x v z hy hx;
  }

  pub IsSized-at :
      (s : Vga W) (y x : ℕ) (b : ℕ → ℕ)
      → IsSized s
      → IsSized (record s { cursor_x = x; cursor_y = y; buffer = b })
  IsSized-at s y x b z = record { cells = z.cells; columns = z.columns; rows = z.rows }

  abbrev pub ByteOutcome : Vga W → Vga W → Type 0
  ByteOutcome s s' = IsBetween s' × Within s s'

  -- The cursor stays on the screen.
  on_screen :
      (s : Vga W) (y x : ℕ) (b : ℕ → ℕ)
      → IsSized s
      → y < s.height
      → x < s.width + 4
      → 0 < s.width
      → IsBetween (record s { cursor_x = x; cursor_y = y; buffer = b })
  on_screen s y x b z hy hx wide = record {
    sized = IsSized-at s y x b z;
    column = hx;
    row = omega arith;
    below = λ e. absurd (omega arith);
    some_columns = wide;
    some_rows = omega arith;
  }

  newline :
      (s : Vga W)
      → IsSized (record s { cursor_x = 0; cursor_y = s.cursor_y + 1 })
      → s.cursor_y < s.height
      → 0 < s.width
      → IsBetween (record s { cursor_x = 0; cursor_y = s.cursor_y + 1 })
  newline s z hy wide = record {
    sized = z;
    column = omega arith;
    row = omega arith;
    below = λ e. refl;
    some_columns = wide;
    some_rows = omega arith;
  }

  backspace_lem : (s : Vga W) → IsScreen s → ByteOutcome s (backspace s)
  unfolding backspace
  backspace_lem s v =
      let ey : s.cursor_y % 2 ^ 32 ≡ s.cursor_y = omega (arith, v.row, v.sized.rows) in
      let ex : (s.cursor_x - 1) % 2 ^ 32 ≡ s.cursor_x - 1 =
        omega (arith, v.column, v.sized.columns) in
      let up_y : (s.cursor_y - 1) % 2 ^ 32 ≡ s.cursor_y - 1 = omega (arith, v.row, v.sized.rows) in
      let up_x : (s.width + (2 ^ 32 - 1)) % 2 ^ 32 ≡ s.width - 1 =
        omega (arith, v.column, v.sized.columns) in
      elim (Bool-cases (ltb 0 s.cursor_x)) [
        | inl e ↦
            rw (e, ex, ey)
              (
                on_screen s s.cursor_y (s.cursor_x - 1) _ v.sized v.row (omega (arith, v.column))
                    (omega (arith, v.column)),
                put_at-Within s s.cursor_y (s.cursor_x - 1) vga_cell_clear s.cursor_y
                    (s.cursor_x - 1) v.sized v.row (omega (arith, v.column)),
              )
        | inr e ↦ elim (Bool-cases (ltb 0 s.cursor_y)) [
          | inl up ↦
              rw (e, up, up_x, up_y)
                (
                  on_screen s (s.cursor_y - 1) (s.width - 1) _ v.sized (omega (arith, v.row))
                      (omega arith) (omega (arith, v.column)),
                  put_at-Within s (s.cursor_y - 1) (s.width - 1) vga_cell_clear (s.cursor_y - 1)
                      (s.width - 1) v.sized (omega (arith, v.row)) (omega (arith, v.column)),
                )
          | inr top ↦
              rw (e, top)
                (
                  on_screen s s.cursor_y s.cursor_x s.buffer v.sized v.row (omega (arith, v.column))
                      (omega (arith, v.column)),
                  Within-refl s,
                )
        ]
      ]

  type_byte_lem : (c : ℕ) (s : Vga W) → IsScreen s → ByteOutcome s (type_byte c s)
  unfolding type_byte
  type_byte_lem c s v =
      let z = v.sized in
      let col = v.column in
      let row = v.row in
      let ey : s.cursor_y % 2 ^ 32 ≡ s.cursor_y = omega (arith, row, z.rows) in
      let down : (s.cursor_y + 1) % 2 ^ 32 ≡ s.cursor_y + 1 = omega (arith, row, z.rows) in
      let right : (s.cursor_x + 1) % 2 ^ 32 ≡ s.cursor_x + 1 = omega (arith, col, z.columns) in
      let tab : (s.cursor_x + (4 - s.cursor_x % 4)) % 2 ^ 32 ≡ s.cursor_x + (4 - s.cursor_x % 4) =
        omega (arith, col, z.columns) in
      elim (Bool-cases (c == 10)) [
        | inl e ↦
            rw (e, down)
              (
                newline s (IsSized-at s (s.cursor_y + 1) 0 s.buffer z) row (omega (arith, col)),
                record { same_width = refl; same_height = refl; outside = λ i h. refl },
              )
        | inr e ↦ elim (Bool-cases (c == 13)) [
          | inl e' ↦
              rw (e, e', ey)
                (
                  on_screen s s.cursor_y 0 s.buffer z row (omega arith) (omega (arith, col)),
                  record { same_width = refl; same_height = refl; outside = λ i h. refl },
                )
          | inr e' ↦ elim (Bool-cases (c == 9)) [
            | inl e'' ↦
                rw (e, e', e'', tab, ey)
                  (
                    on_screen s s.cursor_y (s.cursor_x + (4 - s.cursor_x % 4)) s.buffer z row
                        (omega (arith, col)) (omega (arith, col)),
                    record { same_width = refl; same_height = refl; outside = λ i h. refl },
                  )
            | inr e'' ↦ elim (Bool-cases (c == 8)) [
              | inl b ↦ rw (e, e', e'', b) (backspace_lem s v)
              | inr b ↦
                  rw (e, e', e'', b, right, ey)
                    (
                      on_screen s s.cursor_y (s.cursor_x + 1) _ z row (omega (arith, col))
                          (omega (arith, col)),
                      put_at-Within s s.cursor_y s.cursor_x (vga_cell c 0x07 0x00 0) s.cursor_y
                          (s.cursor_x + 1) z row col,
                    )
            ]
          ]
        ]
      ]

  next_line_lem :
      (s : Vga W)
      → IsBetween s
      → IsBetween (next_line s) × ((next_line s).cursor_x < s.width) × Within s (next_line s)
  unfolding next_line
  next_line_lem s v = elim (Bool-cases (leb s.width s.cursor_x)) [
    | inl e ↦
        let above : s.cursor_y < s.height = ground (arith, v.row, v.below, v.some_columns) in
        let down : (s.cursor_y + 1) % 2 ^ 32 ≡ s.cursor_y + 1 =
          omega (arith, above, v.sized.rows) in
        rw (e, down)
          (
            newline s (IsSized-at s (s.cursor_y + 1) 0 s.buffer v.sized) above v.some_columns,
            v.some_columns,
            record { same_width = refl; same_height = refl; outside = λ i h. refl },
          )
    | inr e ↦ rw e (v, ground arith, Within-refl s)
  ]

  scroll_lem :
      (s : Vga W) → IsBetween s → s.cursor_x < s.width → IsScreen (scroll s) × Within s (scroll s)
  unfolding scroll
  scroll_lem s v col = elim (Bool-cases (leb s.height s.cursor_y)) [
    | inl e ↦
        let last : (s.height + (2 ^ 32 - 1)) % 2 ^ 32 ≡ s.height - 1 =
          omega (arith, v.some_rows, v.sized.rows) in
        rw (e, last)
          (
            record {
              sized = IsSized-at s (s.height - 1) s.cursor_x _ v.sized;
              column = col;
              row = omega (arith, v.some_rows);
            },
            record {
              same_width = refl;
              same_height = refl;
              outside = λ i h. ground (
                arith,
                scrolled s.width s.height v.sized.cells s.buffer i v.some_rows,
                row-le s.width s.height v.sized.cells (s.height - 1) (omega (arith, v.some_rows)),
              );
            },
          )
    | inr e ↦ rw e (record { sized = v.sized; column = col; row = ground arith }, Within-refl s)
  ]

  -- One byte.
  pub byte_lem :
      (c : ℕ) (s : Vga W)
      → IsScreen s
      → let s' = scroll (next_line (type_byte c s)) in IsScreen s' × Within s s'
  byte_lem c s v =
      let (typed, a) = type_byte_lem c s v in
      let (wrapped, col, b) = next_line_lem (type_byte c s) typed in
      let (screen, d) = scroll_lem (next_line (type_byte c s)) wrapped (rw b.same_width col) in
      (screen, Within-trans a (Within-trans b d))

  write_bytes_lem :
      (bytes : List ℕ) (s : Vga W)
      → IsScreen s
      → IsScreen (write_bytes bytes s) × Within s (write_bytes bytes s)
  unfolding write_bytes
  write_bytes_lem [] s v = (v, Within-refl s)
  write_bytes_lem (c ∷ cs) s v =
      let (first, a) = byte_lem c s v in
      let (rest, b) = write_bytes_lem cs (scroll (next_line (type_byte c s))) first in
      (rest, Within-trans a b)

  -- Every sequence of bytes can be written: the cursor stays on the screen, and no memory behind the
  -- cells is changed.
  pub vga_text_console_write_lem :
      (ports : Ports W) (bytes : List ℕ) (s : Vga W)
      → IsScreen s
      → let (e, s') = vga_text_console_write ports (some bytes) s in
        (e ≡ ok) × IsScreen s' × Within s s'
  unfolding vga_text_console_write vga_text_update_cursor
  vga_text_console_write_lem ports bytes s v =
      let (screen, within) = write_bytes_lem bytes s v in
      (
        refl,
        record {
          sized = record {
            cells = screen.sized.cells;
            columns = screen.sized.columns;
            rows = screen.sized.rows;
          };
          column = screen.column;
          row = screen.row;
        },
        record {
          same_width = within.same_width;
          same_height = within.same_height;
          outside = within.outside;
        },
      )
