-- ===== src/VgaText/Tests.antt =====
-- A write on a screen of 80 by 25 cells, from its last cell on.
use it_works_os.Base.{ℕ, ◌+◌, ◌*◌, ◌≡◌, refl, arith, some, List, [], ◌∷◌}
use it_works_os.Kerror.{ok}
use it_works_os.Port.{Ports}
use it_works_os.VgaText.{Vga, vga_text_console_write}
use it_works_os.VgaText.Screen.{IsScreen, Within, vga_text_console_write_lem}
use it_works_os.VgaText.Terminal.{Term, term_write}
use it_works_os.VgaText.Refine.{Shows, vga_text_console_write-Shows}

-- Ports that keep what is written.
abbrev ports : Ports (List ℕ)
ports = record { read8 = λ port w. (0, w); write8 = λ port v w. v ∷ w }

abbrev screen : Vga (List ℕ)
screen = record {
  width = 80;
  height = 25;
  cursor_x = 79;
  cursor_y = 24;
  buffer = λ i. i;
  port_base = 0x3D4;
  hw = [];
}

abbrev term : Term
term = record { x = 79; y = 24; cells = λ r c. r * 80 + c }

screen-IsScreen : IsScreen screen
screen-IsScreen = record {
  sized = record { cells = omega arith; columns = omega arith; rows = omega arith };
  column = omega arith;
  row = omega arith;
}

vga_text_console_write_lem_example :
    let (e, s) = vga_text_console_write ports (some (65 ∷ 9 ∷ 8 ∷ 10 ∷ [])) screen in
    (e ≡ ok) × IsScreen s × Within screen s
vga_text_console_write_lem_example =
    vga_text_console_write_lem ports (65 ∷ 9 ∷ 8 ∷ 10 ∷ []) screen screen-IsScreen

vga_text_console_write-Shows_example :
    Shows
      (vga_text_console_write ports (some (65 ∷ 9 ∷ 8 ∷ 10 ∷ [])) screen).1
      (term_write 80 25 (65 ∷ 9 ∷ 8 ∷ 10 ∷ []) term)
vga_text_console_write-Shows_example =
    vga_text_console_write-Shows ports (65 ∷ 9 ∷ 8 ∷ 10 ∷ []) screen term screen-IsScreen
      (record { same_x = refl; same_y = refl; same_cells = λ r c hr hc. refl })
