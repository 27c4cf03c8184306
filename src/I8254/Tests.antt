-- ===== src/I8254/Tests.antt =====
-- A start of the timer, where the interrupt 5 has a chip and where it has none.
use it_works_os.Base.{ℕ, Bool, false, none, some, List, [], ◌∷◌, if◌then◌else◌, ◌==◌}
use it_works_os.Kerror.{ok}
use it_works_os.Port.{Ports}
use it_works_os.Irq.{Irq, IrqChip}
use it_works_os.I8254.{Hal, Timer, disabled, i8254_min_delta_ns, i8254_max_delta_ns}

-- The state is the flag of the interrupts and what was written.
abbrev State : Type 0
State = Bool × List ℕ

abbrev hal : Hal State
hal = record { save_disable = λ w. (w.0, (false, w.1)); restore = λ on w. (on, w.1) }

abbrev ports : Ports State
ports = record { read8 = λ port w. (0, w); write8 = λ port v w. (w.0, v ∷ w.1) }

abbrev chip : IrqChip State
chip = record {
  handle_vector = λ vector w. (ok, vector, w);
  disable = λ irq w. w;
  enable = λ irq w. w;
  eoi = λ irq w. w;
}

abbrev irqs : Irq State
irqs = record {
  allocated = record { words = []; nbits = 256; nelems = 0 };
  descs = λ irq. record {
    hwirq = 0;
    map = none;
    chip = (if irq == 5 then some chip else none);
    handler = none;
    dev_id = 0;
  };
}

abbrev timer : Timer State
timer = record {
  mode = disabled;
  min_delta_ns = i8254_min_delta_ns;
  max_delta_ns = i8254_max_delta_ns;
  event = none;
  port_base = 0x40;
  irq = 5;
}
