-- ===== src/VgaText.antt =====
-- kernel/drivers/video/vga/vga_text.c: the text screen of the VGA, a console. The memory from the start
-- of its buffer on is a function from the index of a cell; `hw` is the state of the ports.
pub mod Scroll
pub mod Screen
pub mod Terminal
pub mod Refine
mod Tests
use it_works_os.Base.{
  ℕ, zero, suc, ◌+◌, ◌-◌, ◌*◌, ◌/◌, ◌%◌, ◌^◌, Bool, true, false, ◌||◌, Option, none, some, List, [],
  ◌∷◌, bit_and, bit_or, if◌then◌else◌, ◌==◌, ltb, leb,
}
use it_works_os.Bits.{bit, mask_clear, mask_set}
use it_works_os.Kerror.{Kerror, ok, inval, range}
use it_works_os.Port.{Ports}
use it_works_os.Console.{Ops}

-- `CONSOLE_TAB_SIZE`
abbrev pub console_tab_size : ℕ
console_tab_size = 4

-- `VGA_CELL` and `VGA_CELL_CLEAR`
pub vga_cell : ℕ → ℕ → ℕ → ℕ → ℕ
vga_cell ch fg bg blink =
    bit_or (bit_or (bit_or (ch % 2 ^ 8) (fg * 2 ^ 8)) (bg * 2 ^ 12)) (blink * 2 ^ 15)

abbrev pub vga_cell_clear : ℕ
vga_cell_clear = vga_cell 0x20 0x07 0x00 0

-- `struct vga_text_priv` with its console, and the hardware
pub record Vga (W : Type 0) : Type 0 where
  pub width : ℕ
  pub height : ℕ
  pub cursor_x : ℕ
  pub cursor_y : ℕ
  pub buffer : ℕ → ℕ
  pub port_base : ℕ
  pub hw : W

-- The index of a cell, and a cell written.
abbrev pub cell_index : ℕ → ℕ → ℕ → ℕ
cell_index width y x = (y * width + x) % 2 ^ 32

pub write_cell : (ℕ → ℕ) → ℕ → ℕ → ℕ → ℕ
write_cell buffer i v j = if j == i then v else buffer j

-- The loops that scroll: over the cells of a row, over the rows from the second on, and over the cells
-- of the last row.
pub copy_cells : ℕ → ℕ → ℕ → ℕ → (ℕ → ℕ) → ℕ → ℕ
copy_cells width y zero x buffer = buffer
copy_cells width y (suc n) x buffer =
    copy_cells width y n (x + 1)
      (write_cell buffer (cell_index width (y - 1) x) (buffer (cell_index width y x)))

pub copy_rows : ℕ → ℕ → ℕ → (ℕ → ℕ) → ℕ → ℕ
copy_rows width zero y buffer = buffer
copy_rows width (suc n) y buffer = copy_rows width n (y + 1) (copy_cells width y width 0 buffer)

pub clear_cells : ℕ → ℕ → ℕ → ℕ → (ℕ → ℕ) → ℕ → ℕ
clear_cells width y zero x buffer = buffer
clear_cells width y (suc n) x buffer =
    clear_cells width y n (x + 1) (write_cell buffer (cell_index width y x) vga_cell_clear)

-- The loop of `vga_text_console_clear`.
pub clear_from : ℕ → ℕ → (ℕ → ℕ) → ℕ → ℕ
clear_from zero i buffer = buffer
clear_from (suc n) i buffer = clear_from n (i + 1) (write_cell buffer i vga_cell_clear)

module _ {W : Type 0} where
  -- A cell at the cursor.
  abbrev pub put_cell : ℕ → Vga W → Vga W
  put_cell v s = record s {
    buffer = write_cell s.buffer (cell_index s.width s.cursor_y s.cursor_x) v;
  }

  abbrev pub move : ℕ → ℕ → Vga W → Vga W
  move x y s = record s { cursor_x = x % 2 ^ 32; cursor_y = y % 2 ^ 32 }

  pub backspace : Vga W → Vga W
  backspace s =
      if ltb 0 s.cursor_x
      then put_cell vga_cell_clear (move (s.cursor_x - 1) s.cursor_y s)
      else if ltb 0 s.cursor_y
      then put_cell vga_cell_clear (move (s.width + (2 ^ 32 - 1)) (s.cursor_y - 1) s)
      else s

  -- The cases of `vga_text_console_write` for one byte.
  pub type_byte : ℕ → Vga W → Vga W
  type_byte c s =
      if c == 10
      then move 0 (s.cursor_y + 1) s
      else if c == 13
      then move 0 s.cursor_y s
      else if c == 9
      then move (s.cursor_x + (console_tab_size - s.cursor_x % console_tab_size)) s.cursor_y s
      else if c == 8
      then backspace s
      else move (s.cursor_x + 1) s.cursor_y (put_cell (vga_cell c 0x07 0x00 0) s)

  pub next_line : Vga W → Vga W
  next_line s = if leb s.width s.cursor_x then move 0 (s.cursor_y + 1) s else s

  pub scroll : Vga W → Vga W
  scroll s =
      let last = (s.height + (2 ^ 32 - 1)) % 2 ^ 32 in
      if leb s.height s.cursor_y
      then record s {
        buffer = clear_cells s.width last s.width 0 (copy_rows s.width (s.height - 1) 1 s.buffer);
        cursor_y = last;
      }
      else s

  pub write_bytes : List ℕ → Vga W → Vga W
  write_bytes [] s = s
  write_bytes (c ∷ cs) s = write_bytes cs (scroll (next_line (type_byte c s)))

  module _ (ports : Ports W) where
    -- Values written to the index port and the data port of a register.
    abbrev pub write_register : ℕ → ℕ → ℕ → W → W
    write_register port_base register v hw =
        ports.write8 (port_base + 1) v (ports.write8 port_base register hw)

    pub vga_text_update_cursor : Vga W → Vga W
    vga_text_update_cursor s =
        let position = cell_index s.width s.cursor_y s.cursor_x % 2 ^ 16 in
        record s {
          hw =
              write_register s.port_base 0x0E (bit_and (position / 2 ^ 8) 0xFF)
                (write_register s.port_base 0x0F (bit_and position 0xFF) s.hw);
        }

    -- `none` is a null pointer, and the list is `buf[0]` to `buf[len - 1]`.
    pub vga_text_console_write : Option (List ℕ) → Vga W → Kerror × Vga W
    vga_text_console_write none s = (inval, s)
    vga_text_console_write (some bytes) s = (ok, vga_text_update_cursor (write_bytes bytes s))

    pub vga_text_console_clear : Vga W → Kerror × Vga W
    vga_text_console_clear s = (
      ok,
      vga_text_update_cursor
          (record s { buffer = clear_from (80 * 25) 0 s.buffer; cursor_x = 0; cursor_y = 0 }),
    )

    pub vga_text_console_set_cursor_position : ℕ → ℕ → Vga W → Kerror × Vga W
    vga_text_console_set_cursor_position x y s =
        if leb s.width x || leb s.height y
        then (range, s)
        else (ok, vga_text_update_cursor (record s { cursor_x = x; cursor_y = y }))

    -- Register 0x0A, read, changed and written.
    pub vga_text_console_set_cursor_visible : Bool → Vga W → Kerror × Vga W
    vga_text_console_set_cursor_visible true s =
        let (value, hw) = ports.read8 (s.port_base + 1) (ports.write8 s.port_base 0x0A s.hw) in
        let start = mask_clear 8 (bit_or (mask_clear 8 value 0x1F) 13) (bit 5) in
        (
          ok,
          record s {
            hw = write_register s.port_base 0x0B 15 (ports.write8 (s.port_base + 1) start hw);
          },
        )
    vga_text_console_set_cursor_visible false s =
        let (value, hw) = ports.read8 (s.port_base + 1) (ports.write8 s.port_base 0x0A s.hw) in
        (ok, record s { hw = ports.write8 (s.port_base + 1) (mask_set value (bit 5)) hw })

    -- The functions of the console that `vga_text_probe` registers.
    abbrev pub vga_console : Ops (Vga W)
    vga_console = record {
      write = vga_text_console_write;
      clear = vga_text_console_clear;
      set_cursor_position = vga_text_console_set_cursor_position;
      set_cursor_visible = vga_text_console_set_cursor_visible;
    }
