-- ===== src/VgaText/Refine.antt =====
-- The screen of kernel/drivers/video/vga/vga_text.c implements the terminal of rows and columns.
use native.Mathlib.Nat.{mul-le-mul_right}
use it_works_os.Base.{
  ℕ, suc, ◌+◌, ◌-◌, ◌*◌, ◌%◌, ◌^◌, ◌≤◌, ◌<◌, ◌≡◌, refl, ◌∙◌, arith, true, false, some, List, [],
  ◌∷◌, ◌==◌, ltb, leb, inl, inr, Bool-cases,
}
use mathlib.Core.Path.{subst}
use it_works_os.Port.{Ports}
use it_works_os.VgaText.{
  Vga, vga_cell, vga_cell_clear, write_cell, backspace, type_byte, next_line, scroll, write_bytes,
  vga_text_update_cursor, vga_text_console_write,
}
use it_works_os.VgaText.Scroll.{row-le, cell_index_lem, scrolled}
use it_works_os.VgaText.Screen.{IsSized, IsSized-at, IsScreen, put_at, byte_lem}
use it_works_os.VgaText.Terminal.{Term, set_cell, line_feed, forward, erase, term_byte, term_write}

module _ {W : Type 0} where
  -- The screen shows the terminal.
  pub record Shows (s : Vga W) (t : Term) : Type 0 where
    pub same_x : s.cursor_x ≡ t.x
    pub same_y : s.cursor_y ≡ t.y
    pub same_cells :
        (r c : ℕ) → r < s.height → c < s.width → s.buffer (r * s.width + c) ≡ t.cells r c

  put_cell-Shows :
      (s : Vga W) (t : Term) (y x v y' x' : ℕ)
      → IsSized s
      → y < s.height
      → x < s.width
      → Shows s t
      → Shows (put_at s y x v y' x') (set_cell y x v (record t { x = x'; y = y' }))
  unfolding write_cell
  put_cell-Shows s t y x v y' x' z hy hx f = record {
    same_x = refl;
    same_y = refl;
    same_cells = λ r c hr hc.
        rw (cell_index_lem s.width s.height z.cells y x hy hx) (elim (Bool-cases (r == y)) [
          | inl e ↦
              let here : r ≡ y = ground arith in rw here (ground (arith, f.same_cells y c hy hc))
          | inr e ↦ elim (Bool-cases (ltb r y)) [
            | inl above ↦
                let less : suc r ≤ y = ground arith in
                ground (arith, f.same_cells r c hr hc, mul-le-mul_right s.width less)
            | inr under ↦
                let less : suc y ≤ r = ground arith in
                ground (arith, f.same_cells r c hr hc, mul-le-mul_right s.width less)
          ]
        ]);
  }

  -- The start of the next line.
  line_feed-Shows :
      (s : Vga W) (t : Term)
      → IsScreen s
      → Shows s t
      → Shows
          (scroll (record s { cursor_x = 0; cursor_y = s.cursor_y + 1 }))
          (line_feed s.width s.height t)
  unfolding scroll
  line_feed-Shows s t v f = elim (Bool-cases (leb s.height (s.cursor_y + 1))) [
    | inr e ↦
        let stays : ltb (t.y + 1) s.height ≡ true = ground (arith, f.same_y) in
        rw (e, stays)
          (record { same_x = refl; same_y = omega (arith, f.same_y); same_cells = f.same_cells })
    | inl e ↦
        let last : (s.height + (2 ^ 32 - 1)) % 2 ^ 32 ≡ s.height - 1 =
          omega (arith, v.row, v.sized.rows) in
        let leaves : ltb (t.y + 1) s.height ≡ false = ground (arith, f.same_y) in
        rw (e, last, leaves)
          (record {
            same_x = refl;
            same_y = ground (arith, f.same_y, v.row);
            same_cells = λ r c hr hc.
                scrolled s.width s.height v.sized.cells s.buffer (r * s.width + c)
                  (omega (arith, v.row))
                ∙ elim (Bool-cases (ltb (r + 1) s.height)) [
                  | inl more ↦
                      let next : suc (r + 1) ≤ s.height = ground arith in
                      let below : r + 1 ≤ s.height - 1 = omega arith in
                      let there : r * s.width + c + s.width ≡ (r + 1) * s.width + c = omega arith in
                      let inside : ltb (r * s.width + c) ((s.height - 1) * s.width) ≡ true =
                        ground (arith, mul-le-mul_right s.width below) in
                      rw (more, inside, there) (f.same_cells (r + 1) c next hc)
                  | inr bottom ↦
                      let here : r ≡ s.height - 1 = ground arith in
                      let outside : ltb (r * s.width + c) ((s.height - 1) * s.width) ≡ false =
                        rw here (ground arith) in
                      let inside : ltb (r * s.width + c) (s.height * s.width) ≡ true =
                        ground (arith, row-le s.width s.height v.sized.cells r hr) in
                      rw (bottom, outside, inside) refl
                ];
          })
  ]

  -- A cursor on the screen does not scroll it, and one inside its row stays there.
  unscrolled : (s : Vga W) (t : Term) → s.cursor_y < s.height → Shows s t → Shows (scroll s) t
  unfolding scroll
  unscrolled s t row f = let e : leb s.height s.cursor_y ≡ false = ground arith in rw e f

  stays :
      (s : Vga W) (t : Term)
      → s.cursor_x < s.width
      → s.cursor_y < s.height
      → Shows s t
      → Shows (scroll (next_line s)) t
  unfolding next_line
  stays s t col row f =
      let e : leb s.width s.cursor_x ≡ false = ground arith in rw e (unscrolled s t row f)

  -- Columns to the right.
  forward-Shows :
      (s : Vga W) (t : Term) (n : ℕ)
      → IsScreen s
      → Shows s t
      → s.cursor_x + n < 2 ^ 32
      → Shows
          (scroll (next_line (record s { cursor_x = s.cursor_x + n })))
          (forward s.width s.height n t)
  unfolding next_line
  forward-Shows s t n v f small = elim (Bool-cases (leb s.width (s.cursor_x + n))) [
    | inl e ↦
        let over : ltb (t.x + n) s.width ≡ false = ground (arith, f.same_x) in
        let down : (s.cursor_y + 1) % 2 ^ 32 ≡ s.cursor_y + 1 =
          omega (arith, v.row, v.sized.rows) in
        rw (e, over, down) (line_feed-Shows s t v f)
    | inr e ↦
        let stays : ltb (t.x + n) s.width ≡ true = ground (arith, f.same_x) in
        rw (e, stays)
          (unscrolled _ _ v.row (record {
            same_x = omega (arith, f.same_x);
            same_y = f.same_y;
            same_cells = f.same_cells;
          }))
  ]

  erase-Shows :
      (s : Vga W) (t : Term)
      → IsScreen s
      → Shows s t
      → Shows (scroll (next_line (backspace s))) (erase s.width s.height t)
  unfolding backspace
  erase-Shows s t v f =
      let ey : s.cursor_y % 2 ^ 32 ≡ s.cursor_y = omega (arith, v.row, v.sized.rows) in
      let ex : (s.cursor_x - 1) % 2 ^ 32 ≡ s.cursor_x - 1 =
        omega (arith, v.column, v.sized.columns) in
      let up_y : (s.cursor_y - 1) % 2 ^ 32 ≡ s.cursor_y - 1 = omega (arith, v.row, v.sized.rows) in
      let up_x : (s.width + (2 ^ 32 - 1)) % 2 ^ 32 ≡ s.width - 1 =
        omega (arith, v.column, v.sized.columns) in
      elim (Bool-cases (ltb 0 s.cursor_x)) [
        | inl e ↦
            let e' : ltb 0 t.x ≡ true = rw f.same_x at e in
            rw (e, e', ex, ey, ← f.same_x, ← f.same_y)
              (stays _ _ (omega (arith, v.column)) v.row (
                put_cell-Shows s t s.cursor_y (s.cursor_x - 1) vga_cell_clear s.cursor_y
                  (s.cursor_x - 1) v.sized v.row (omega (arith, v.column)) f))
        | inr e ↦ elim (Bool-cases (ltb 0 s.cursor_y)) [
          | inl up ↦
              let e' : ltb 0 t.x ≡ false = rw f.same_x at e in
              let up' : ltb 0 t.y ≡ true = rw f.same_y at up in
              rw (e, e', up, up', up_x, up_y, ← f.same_y)
                (stays _ _ (omega (arith, v.column)) (omega (arith, v.row)) (
                  put_cell-Shows s t (s.cursor_y - 1) (s.width - 1) vga_cell_clear (s.cursor_y - 1)
                    (s.width - 1) v.sized (omega (arith, v.row)) (omega (arith, v.column)) f))
          | inr top ↦
              let e' : ltb 0 t.x ≡ false = rw f.same_x at e in
              let top' : ltb 0 t.y ≡ false = rw f.same_y at top in
              rw (e, e', top, top') (stays s t v.column v.row f)
        ]
      ]

  -- A character at the cursor, and the cursor after it.
  plain :
      (s : Vga W) (t : Term) (c : ℕ)
      → IsScreen s
      → Shows s t
      → Shows
          (scroll (
            next_line (
              put_at s s.cursor_y s.cursor_x (vga_cell c 0x07 0x00 0) s.cursor_y (s.cursor_x + 1))))
          (forward s.width s.height 1 (
            set_cell s.cursor_y s.cursor_x
              (vga_cell c 0x07 0x00 0)
              (record t { x = s.cursor_x; y = s.cursor_y })))
  plain s t c v f =
      forward-Shows (put_at s s.cursor_y s.cursor_x (vga_cell c 0x07 0x00 0) s.cursor_y s.cursor_x)
        _ 1
        (record {
          sized = IsSized-at s s.cursor_y s.cursor_x _ v.sized;
          column = v.column;
          row = v.row;
        })
        (put_cell-Shows s t s.cursor_y s.cursor_x (vga_cell c 0x07 0x00 0) s.cursor_y s.cursor_x
          v.sized v.row v.column f)
        (omega (arith, v.column, v.sized.columns))

  type_byte-Shows :
      (c : ℕ) (s : Vga W) (t : Term)
      → IsScreen s
      → Shows s t
      → Shows (scroll (next_line (type_byte c s))) (term_byte s.width s.height c t)
  unfolding type_byte term_byte next_line
  type_byte-Shows c s t v f =
      let ey : s.cursor_y % 2 ^ 32 ≡ s.cursor_y = omega (arith, v.row, v.sized.rows) in
      let down : (s.cursor_y + 1) % 2 ^ 32 ≡ s.cursor_y + 1 = omega (arith, v.row, v.sized.rows) in
      let right : (s.cursor_x + 1) % 2 ^ 32 ≡ s.cursor_x + 1 =
        omega (arith, v.column, v.sized.columns) in
      let tab : (s.cursor_x + (4 - s.cursor_x % 4)) % 2 ^ 32 ≡ s.cursor_x + (4 - s.cursor_x % 4) =
        omega (arith, v.column, v.sized.columns) in
      let start : leb s.width 0 ≡ false = ground (arith, v.column) in
      elim (Bool-cases (c == 10)) [
        | inl e ↦ rw (e, down, start) (line_feed-Shows s t v f)
        | inr e ↦ elim (Bool-cases (c == 13)) [
          | inl e' ↦
              rw (e, e', ey)
                (stays _ _ (omega (arith, v.column)) v.row
                  (record { same_x = refl; same_y = f.same_y; same_cells = f.same_cells }))
          | inr e' ↦ elim (Bool-cases (c == 9)) [
            | inl e'' ↦
                let same : 4 - t.x % 4 ≡ 4 - s.cursor_x % 4 = omega (arith, f.same_x) in
                rw (e, e', e'', tab, ey, same)
                  (forward-Shows s t (4 - s.cursor_x % 4) v f
                    (omega (arith, v.column, v.sized.columns)))
            | inr e'' ↦ elim (Bool-cases (c == 8)) [
              | inl b ↦ rw (e, e', e'', b) (erase-Shows s t v f)
              | inr b ↦
                  rw (e, e', e'', b, right, ey) (rw (← f.same_x, ← f.same_y) (plain s t c v f))
            ]
          ]
        ]
      ]

  bytes_show :
      (bytes : List ℕ) (s : Vga W) (t : Term)
      → IsScreen s
      → Shows s t
      → Shows (write_bytes bytes s) (term_write s.width s.height bytes t)
  unfolding write_bytes term_write
  bytes_show [] s t v f = f
  bytes_show (c ∷ cs) s t v f =
      let (screen, within) = byte_lem c s v in
      let s' = scroll (next_line (type_byte c s)) in
      let t' = term_byte s.width s.height c t in
      subst (λ k. Shows (write_bytes cs s') (term_write s.width k cs t')) within.same_height
        (subst (λ k. Shows (write_bytes cs s') (term_write k s'.height cs t')) within.same_width
          (bytes_show cs s' t' screen (type_byte-Shows c s t v f)))

  -- Writing any bytes to a screen that shows a terminal gives one that shows what the terminal of rows
  -- and columns does with them: line feeds, returns, tab stops, erasing, the end of a line and
  -- scrolling.
  pub vga_text_console_write-Shows :
      (ports : Ports W) (bytes : List ℕ) (s : Vga W) (t : Term)
      → IsScreen s
      → Shows s t
      → Shows (vga_text_console_write ports (some bytes) s).1 (term_write s.width s.height bytes t)
  unfolding vga_text_console_write vga_text_update_cursor
  vga_text_console_write-Shows ports bytes s t v f =
      let shown = bytes_show bytes s t v f in
      record { same_x = shown.same_x; same_y = shown.same_y; same_cells = shown.same_cells }
