-- ===== src/I8254.antt =====
-- kernel/drivers/timer/i8254.c and kernel/time/timer_device.c: channel 0 of the interval timer, over the
-- interrupts of Irq.antt and the ports of Port.antt. `Hal` stands for kernel/include/hal/interrupt.h.
pub mod Start
mod Tests
use it_works_os.Base.{
  ℕ, ◌+◌, ◌*◌, ◌/◌, ◌%◌, ◌^◌, Bool, true, false, ◌||◌, Option, none, some, List, [], ◌∷◌, ◌++◌,
  bit_and, if◌then◌else◌, ltb,
}
use it_works_os.Kerror.{Kerror, ok, inval, range, is_err}
use it_works_os.Port.{Ports}
use it_works_os.Irq.{Irq, irq_enable, irq_disable}

-- `hal_interrupt_save_disable` and `hal_interrupt_restore`
pub record Hal (W : Type 0) : Type 0 where
  pub save_disable : W → Bool × W
  pub restore : Bool → W → W

-- `enum timer_device_mode`
pub data Mode : Type 0 where
  disabled periodic oneshot : Mode

-- `struct i8254_priv` with its timer. The callback `event` may change the mode, through the functions
-- of the timer; `none` is NULL.
pub record Timer (W : Type 0) : Type 0 where
  pub mode : Mode
  pub min_delta_ns : ℕ
  pub max_delta_ns : ℕ
  pub event : Option (Mode → W → Mode × W)
  pub port_base : ℕ
  pub irq : ℕ

-- I8254_BASE_FREQ, NS_PER_SEC, I8254_MIN_DELTA_NS and I8254_MAX_DELTA_NS
abbrev pub i8254_base_freq : ℕ
i8254_base_freq = 1193182

abbrev pub ns_per_sec : ℕ
ns_per_sec = 1000000000

abbrev pub i8254_min_delta_ns : ℕ
i8254_min_delta_ns = ns_per_sec * 20 / i8254_base_freq

abbrev pub i8254_max_delta_ns : ℕ
i8254_max_delta_ns = ns_per_sec * 65535 / i8254_base_freq

-- `pit_counter`, in 64 bits
abbrev pub pit_counter : ℕ → ℕ
pit_counter ns = ns * i8254_base_freq % 2 ^ 64 / ns_per_sec

module _ {W : Type 0} (hal : Hal W) (ports : Ports W) (irqs : Irq W) where
  -- The command, and the low and the high byte of the counter
  abbrev pub program : ℕ → ℕ → ℕ → W → W
  program port_base command counter w =
      ports.write8 port_base (bit_and (counter / 2 ^ 8) 0xFF)
        (ports.write8 port_base (bit_and counter 0xFF) (ports.write8 (port_base + 3) command w))

  -- What follows `irq_enable`.
  abbrev pub started : Mode → Bool → Timer W → Kerror × W → Kerror × Timer W × W
  started mode state t (e, w) =
      if is_err e then (e, t, w) else (ok, record t { mode = mode }, hal.restore state w)

  pub start : ℕ → Mode → ℕ → Timer W → W → Kerror × Timer W × W
  start command mode ns t w =
      let (state, w') = hal.save_disable w in
      if ltb ns t.min_delta_ns || ltb t.max_delta_ns ns
      then (range, t, w)
      else started mode state t
          (irq_enable irqs t.irq (program t.port_base command (pit_counter ns) w'))

  pub i8254_timer_start_periodic : ℕ → Timer W → W → Kerror × Timer W × W
  i8254_timer_start_periodic period_ns t w = start 0x36 periodic period_ns t w

  pub i8254_timer_start_oneshot : ℕ → Timer W → W → Kerror × Timer W × W
  i8254_timer_start_oneshot delta_ns t w = start 0x30 oneshot delta_ns t w

  -- What follows `irq_disable`.
  abbrev pub stopped : Bool → Timer W → Kerror × W → Kerror × Timer W × W
  stopped state t (e, w) = if is_err e then (e, t, w) else (ok, t, hal.restore state w)

  pub i8254_timer_stop : Timer W → W → Kerror × Timer W × W
  i8254_timer_stop t w =
      let (state, w') = hal.save_disable w in
      stopped state (record t { mode = disabled }) (irq_disable irqs t.irq w')

  -- The callback, if the timer is not disabled and has one.
  abbrev pub notify : Mode → Option (Mode → W → Mode × W) → W → Mode × W
  notify disabled event w = (disabled, w)
  notify periodic none w = (periodic, w)
  notify periodic (some event) w = event periodic w
  notify oneshot none w = (oneshot, w)
  notify oneshot (some event) w = event oneshot w

  -- The end of the handler, at the mode that the callback leaves.
  abbrev pub expire : ℕ → Mode × W → Mode × W
  expire irq (oneshot, w) =
      let (state, w') = hal.save_disable w in
      (disabled, hal.restore state (irq_disable irqs irq w').1)
  expire irq (mode, w) = (mode, w)

  pub i8254_irq_handler : Timer W → W → Timer W × W
  i8254_irq_handler t w =
      let (mode, w') = expire t.irq (notify t.mode t.event w) in (record t { mode = mode }, w')

-- kernel/time/timer_device.c: the registered timers by a number, the last one is selected.
pub record TimerDevices : Type 0 where
  pub timer_devices : List ℕ
  pub selected : Option ℕ

pub timer_device_register : Option ℕ → TimerDevices → Kerror × TimerDevices
timer_device_register none s = (inval, s)
timer_device_register (some timer) s =
    (ok, record { timer_devices = s.timer_devices ++ (timer ∷ []); selected = some timer })

pub timer_device_get_selected : TimerDevices → Option ℕ
timer_device_get_selected s = s.selected
