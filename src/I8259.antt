-- ===== src/I8259.antt =====
-- kernel/drivers/irqchip/i8259.c: the two interrupt controllers, as a chip of the interrupt tables.
-- The ports are those of Port.antt.
pub mod Masks
mod Tests
use it_works_os.Base.{
  ℕ, zero, suc, ◌+◌, ◌-◌, ◌*◌, ◌%◌, ◌^◌, Bool, true, false, not, ◌&&◌, ◌||◌, Option, none, some,
  bit_or, if◌then◌else◌, ◌==◌, ltb, leb,
}
use it_works_os.Bits.{bit, mask_set, mask_clear, mask_test}
use it_works_os.Port.{Ports}
use it_works_os.Kerror.{Kerror, ok, noent, is_err}
use it_works_os.Irq.{Irq, IrqMap, IrqChip, irq_map_init, irq_map_hwirq_to_irq, irq_desc_configure}

-- I8259_PIC1_COMMAND_PORT and so on
abbrev pub command1 : ℕ
command1 = 0x20

abbrev pub data1 : ℕ
data1 = 0x21

abbrev pub command2 : ℕ
command2 = 0xA0

abbrev pub data2 : ℕ
data2 = 0xA1

-- `vector` to the hardware number: the master's eight, the slave's eight.
abbrev pub decode : ℕ → Option ℕ
decode vector =
    if leb 0x20 vector && ltb vector 0x28
    then some (vector - 0x20)
    else if leb 0x28 vector && ltb vector 0x30
    then some (8 + (vector - 0x28))
    else none

module _ {W : Type 0} (ports : Ports W) where
  pub i8259_io_wait : W → W
  i8259_io_wait w = ports.write8 0x80 0 w

  abbrev pub write_wait : ℕ → ℕ → W → W
  write_wait port v w = i8259_io_wait (ports.write8 port v w)

  -- ICW1 to ICW4 go to both controllers, and then their old masks.
  i8259_remap : ℕ → ℕ → W → W
  i8259_remap master_offset slave_offset w =
      let icw1 = bit_or (bit 0) (bit 4) in
      let (mask1, w1) = ports.read8 data1 w in
      let (mask2, w2) = ports.read8 data2 w1 in
      let w3 = write_wait command2 icw1 (write_wait command1 icw1 w2) in
      let w4 = write_wait data2 slave_offset (write_wait data1 master_offset w3) in
      let w5 = write_wait data2 2 (write_wait data1 (bit 2) w4) in
      let w6 = write_wait data2 (bit 0) (write_wait data1 (bit 0) w5) in
      ports.write8 data2 mask2 (write_wait data1 mask1 w6)

  -- A register is read, changed and written.
  abbrev pub update : ℕ → (ℕ → ℕ) → W → W
  update port f w = let (mask, w') = ports.read8 port w in ports.write8 port (f mask) w'

  -- The end of `i8259_mask_irq` for a line of the slave, at what its register was.
  abbrev pub mask_slave : ℕ → ℕ × W → W
  mask_slave line (old, w) =
      let mask = mask_set old (bit line) % 2 ^ 8 in
      let w' = ports.write8 data2 mask w in
      if mask == 0xFF then update data1 (λ m. mask_set m (bit 2) % 2 ^ 8) w' else w'

  -- `i8259_mask_irq` and `i8259_unmask_irq`, of the descriptor's `hwirq`, which is below 16
  pub i8259_mask_irq : ℕ → W → W
  i8259_mask_irq hwirq w =
      if leb 8 hwirq
      then mask_slave (hwirq - 8) (ports.read8 data2 w)
      else update data1 (λ m. mask_set m (bit hwirq) % 2 ^ 8) w

  pub i8259_unmask_irq : ℕ → W → W
  i8259_unmask_irq hwirq w =
      if leb 8 hwirq
      then update data2 (λ m. mask_clear 8 m (bit (hwirq - 8)))
          (update data1 (λ m. mask_clear 8 m (bit 2)) w)
      else update data1 (λ m. mask_clear 8 m (bit hwirq)) w

  pub i8259_mask_all : W → W
  i8259_mask_all w = ports.write8 data2 0xFF (ports.write8 data1 0xFF w)

  pub i8259_send_eoi : ℕ → W → W
  i8259_send_eoi hwirq w =
      ports.write8 command1 (bit 5) (if leb 8 hwirq then ports.write8 command2 (bit 5) w else w)

  pub i8259_read_isr : W → ℕ × W
  i8259_read_isr w =
      let ocw3 = bit_or (bit_or (bit 3) (bit 1)) (bit 0) in
      let (low, w1) = ports.read8 command1 (ports.write8 command1 ocw3 w) in
      let (high, w2) = ports.read8 command2 (ports.write8 command2 ocw3 w1) in
      (bit_or low (high * 2 ^ 8) % 2 ^ 16, w2)

  -- No function of the driver calls it.
  i8259_read_irr : W → ℕ × W
  i8259_read_irr w =
      let ocw3 = bit_or (bit 3) (bit 1) in
      let (low, w1) = ports.read8 command1 (ports.write8 command1 ocw3 w) in
      let (high, w2) = ports.read8 command2 (ports.write8 command2 ocw3 w1) in
      (bit_or low (high * 2 ^ 8) % 2 ^ 16, w2)

  pub i8259_is_spurious : ℕ → W → Bool × W
  i8259_is_spurious hwirq w =
      let (isr, w') = i8259_read_isr w in
      if not (hwirq == 7) && not (hwirq == 15)
      then (false, w)
      else (not (mask_test isr (bit hwirq)), w')

  -- `i8259_handle_vector`, once the number is decoded; on an error the number is not used.
  abbrev pub handle_line : Option ℕ → W → Kerror × ℕ × W
  handle_line none w = (noent, 0, w)
  handle_line (some hwirq) w =
      let (spurious, w') = i8259_is_spurious hwirq w in
      if not spurious
      then (ok, hwirq, w')
      else (noent, hwirq, (if hwirq == 15 then ports.write8 command1 (bit 5) w' else w'))

  pub i8259_handle_vector : ℕ → W → Kerror × ℕ × W
  i8259_handle_vector vector w = handle_line (decode vector) w

  -- `i8259_chip`
  abbrev pub i8259_chip : IrqChip W
  i8259_chip = record {
    handle_vector = i8259_handle_vector;
    disable = i8259_mask_irq;
    enable = i8259_unmask_irq;
    eoi = i8259_send_eoi;
  }

  -- The loop of `i8259_init`, with `left` rounds to go.
  pub configure_all : IrqMap → ℕ → ℕ → Irq W → Kerror × Irq W
  configure_all map zero hwirq s = (ok, s)
  configure_all map (suc left) hwirq s =
      let (e, s') =
        irq_desc_configure (irq_map_hwirq_to_irq map hwirq) hwirq (some map) (some i8259_chip) s in
      let rest = configure_all map left (hwirq + 1) s' in if is_err e then (e, s') else rest

  abbrev pub after_map : Kerror × Option IrqMap × Irq W → Kerror × Irq W
  after_map (e, none, s) = (e, s)
  after_map (e, some map, s) = configure_all map map.count 0 s

  -- What `i8259_init` does to the interrupt tables, after the ports are set up.
  pub i8259_register : Irq W → Kerror × Irq W
  i8259_register s = after_map (irq_map_init 0 16 s)

  i8259_init : Irq W → W → Kerror × Irq W × W
  i8259_init s w =
      let w' = i8259_mask_all (i8259_remap 0x20 0x28 w) in
      let (e, s') = i8259_register s in (e, s', w')
