-- ===== src/I8259/Tests.antt =====
-- Two controllers whose registers are the state, to show that the assumptions on them can hold.
use it_works_os.Base.{ℕ, ◌%◌, ◌^◌, ◌≡◌, refl, arith, if◌then◌else◌, ◌==◌}
use it_works_os.Bits.{mask_clear}
use it_works_os.Port.{Ports}
use it_works_os.I8259.{data1, data2, i8259_unmask_irq}
use it_works_os.I8259.Masks.{IsPic}

record Masks : Type 0 where
  first : ℕ
  second : ℕ

abbrev imr1 : Masks → ℕ
imr1 w = w.first % 2 ^ 8

abbrev imr2 : Masks → ℕ
imr2 w = w.second % 2 ^ 8

abbrev ports : Ports Masks
ports = record {
  read8 = λ port w. (if port == data1 then imr1 w else imr2 w, w);
  write8 = λ port v w.
      if port == data1
      then record w { first = v }
      else if port == data2
      then record w { second = v }
      else w;
}

abbrev AnyState : Masks → Type 0
AnyState w = Unit

ports-IsPic : IsPic ports AnyState imr1 imr2
ports-IsPic = record {
  byte1 = λ w. omega arith;
  byte2 = λ w. omega arith;
  read1 = λ w r. refl;
  read2 = λ w r. refl;
  write1 = λ v w h r. (omega arith, refl, tt);
  write2 = λ v w h r. (omega arith, refl, tt);
}

abbrev masked : Masks
masked = record { first = 0xFF; second = 0xFF }

abbrev keyboard_and_clock : Masks
keyboard_and_clock = record { first = 0xF9; second = 0xFE }

clock_enabled : i8259_unmask_irq ports 8 masked ≡ record { first = 0xFB; second = 0xFE }
unfolding i8259_unmask_irq mask_clear
clock_enabled = refl
