-- ===== src/Port.antt =====
-- kernel/include/hal/port.h: the ports, as functions on a state `W` which stands for the hardware.
use it_works_os.Base.{ℕ}

-- `hal_port_read8` and `hal_port_write8`
pub record Ports (W : Type 0) : Type 0 where
  pub read8 : ℕ → W → ℕ × W
  pub write8 : ℕ → ℕ → W → W
