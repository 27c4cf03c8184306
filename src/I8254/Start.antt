-- ===== src/I8254/Start.antt =====
-- Starting the timer of kernel/drivers/timer/i8254.c.
use it_works_os.Base.{ℕ, ◌+◌, ◌*◌, ◌/◌, ◌%◌, ◌^◌, ◌≤◌, ◌<◌, ◌≡◌, ◌⊎◌, true, false}
use it_works_os.Kerror.{Kerror, ok, range, is_err}
use it_works_os.Port.{Ports}
use it_works_os.Irq.{Irq, irq_enable}
use it_works_os.I8254.{Hal, Mode, Timer, i8254_min_delta_ns, i8254_max_delta_ns}

-- The counter of an interval that the driver accepts is one of 16 bits, and not 0, which the device
-- takes for 2^16.
pub record Counts (ns counter : ℕ) : Type 0 where
  pub exact : counter ≡ ns * 1193182 / 1000000000
  pub low : 19 ≤ counter
  pub high : counter < 2 ^ 16

module _ {W : Type 0} (hal : Hal W) (ports : Ports W) (irqs : Irq W) where
  -- The command goes to the port of commands, the lower byte of the counter and then the upper one to
  -- the port of the channel.
  abbrev pub programmed : ℕ → ℕ → ℕ → W → W
  programmed port_base command counter w =
      let commanded = ports.write8 (port_base + 3) command w in
      let low = ports.write8 port_base (counter % 256) commanded in
      ports.write8 port_base (counter / 256) low

  -- What a start does, by the result of `irq_enable` after the device is programmed.
  abbrev pub StartOutcome : ℕ → Mode → ℕ → Timer W → W → Kerror × Timer W × W → Type 0
  StartOutcome command mode ns t w r =
      let state = (hal.save_disable w).0 in
      let enabled =
        irq_enable irqs t.irq
          (programmed t.port_base command (ns * 1193182 / 1000000000) (hal.save_disable w).1) in
      (((ns < i8254_min_delta_ns) ⊎ (i8254_max_delta_ns < ns)) × (r ≡ (range, t, w)))
      ⊎ (Counts ns (ns * 1193182 / 1000000000)
          × (((is_err enabled.0 ≡ false)
                × (r ≡ (ok, record t { mode = mode }, hal.restore state enabled.1)))
              ⊎ ((is_err enabled.0 ≡ true) × (r ≡ (enabled.0, t, enabled.1)))))
