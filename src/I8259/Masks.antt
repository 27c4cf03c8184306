-- ===== src/I8259/Masks.antt =====
-- Which lines the two controllers let through.
use it_works_os.Base.{
  ℕ, ◌+◌, ◌-◌, ◌%◌, ◌^◌, ◌≤◌, ◌<◌, ◌≡◌, inl, inr, arith, ◌&&◌, ◌||◌, if◌then◌else◌, ◌==◌, leb,
  Bool-cases,
}
use it_works_os.Bits.{
  bit, digit, mask_set, mask_clear, digit-mask_set, digit-mask_clear, mask_set-lt, mask_clear-lt,
}
use it_works_os.Port.{Ports}
use it_works_os.I8259.{data1, data2, update, mask_slave, i8259_mask_irq, i8259_unmask_irq}

-- What the controllers' data sheet says of their mask registers, once they are initialised: the
-- data port reads and writes the register (OCW1) of its controller and nothing of the other one.
pub record IsPic {W : Type 0} (ports : Ports W) (IsReady : W → Type 0) (imr1 imr2 : W → ℕ)
    : Type 0 where
  pub byte1 : (w : W) → imr1 w < 2 ^ 8
  pub byte2 : (w : W) → imr2 w < 2 ^ 8
  pub read1 : (w : W) → IsReady w → ports.read8 data1 w ≡ (imr1 w, w)
  pub read2 : (w : W) → IsReady w → ports.read8 data2 w ≡ (imr2 w, w)
  pub write1 :
      (v : ℕ) (w : W)
      → v < 2 ^ 8
      → IsReady w
      → (imr1 (ports.write8 data1 v w) ≡ v)
        × (imr2 (ports.write8 data1 v w) ≡ imr2 w)
        × IsReady (ports.write8 data1 v w)
  pub write2 :
      (v : ℕ) (w : W)
      → v < 2 ^ 8
      → IsReady w
      → (imr2 (ports.write8 data2 v w) ≡ v)
        × (imr1 (ports.write8 data2 v w) ≡ imr1 w)
        × IsReady (ports.write8 data2 v w)

module _ {W : Type 0} {ports : Ports W} {IsReady : W → Type 0} {imr1 imr2 : W → ℕ}
    (pic : IsPic ports IsReady imr1 imr2) where
  update1 :
      (f : ℕ → ℕ) (w : W)
      → f (imr1 w) < 2 ^ 8
      → IsReady w
      → (imr1 (update ports data1 f w) ≡ f (imr1 w))
        × (imr2 (update ports data1 f w) ≡ imr2 w)
        × IsReady (update ports data1 f w)
  update1 f w h r = rw (update, pic.read1 w r) (pic.write1 (f (imr1 w)) w h r)

  update2 :
      (f : ℕ → ℕ) (w : W)
      → f (imr2 w) < 2 ^ 8
      → IsReady w
      → (imr2 (update ports data2 f w) ≡ f (imr2 w))
        × (imr1 (update ports data2 f w) ≡ imr1 w)
        × IsReady (update ports data2 f w)
  update2 f w h r = rw (update, pic.read2 w r) (pic.write2 (f (imr2 w)) w h r)

  -- What enabling `hwirq` makes of the two registers.
  abbrev pub UnmaskOutcome : ℕ → W → W → Type 0
  UnmaskOutcome hwirq w w' =
      ((q : ℕ)
        → q < 8
        → digit (imr1 w') q
          ≡ (if (q == hwirq) || (leb 8 hwirq && (q == 2)) then 0 else digit (imr1 w) q))
      × ((q : ℕ) → q < 8 → digit (imr2 w') q ≡ (if q + 8 == hwirq then 0 else digit (imr2 w) q))
      × IsReady w'

  -- `i8259_unmask_irq` clears the mask bit of the line, and for a line of the slave the bit of the
  -- cascade line 2 of the master too, and no other bit of the two registers.
  pub i8259_unmask_irq_lem :
      (hwirq : ℕ) (w : W)
      → hwirq < 16
      → IsReady w
      → UnmaskOutcome hwirq w (i8259_unmask_irq ports hwirq w)
  unfolding i8259_unmask_irq
  i8259_unmask_irq_lem hwirq w h r = elim (Bool-cases (leb 8 hwirq)) [
    | inl e ↦
        let w1 = update ports data1 (λ m. mask_clear 8 m (bit 2)) w in
        let a =
          update1 (λ m. mask_clear 8 m (bit 2)) w (mask_clear-lt 8 (imr1 w) 2 (pic.byte1 w)) r in
        let b =
          update2 (λ m. mask_clear 8 m (bit (hwirq - 8))) w1
            (mask_clear-lt 8 (imr2 w1) (hwirq - 8) (pic.byte2 w1)) a.2 in
        rw e (
          (λ q lt.
              rw (b.1, a.0) (ground (arith, digit-mask_clear 8 (imr1 w) 2 q (omega arith) lt))),
          (λ q lt.
              rw (b.0, a.1)
                (ground (arith, digit-mask_clear 8 (imr2 w) (hwirq - 8) q (ground arith) lt))),
          b.2,
        )
    | inr e ↦
        let a =
          update1 (λ m. mask_clear 8 m (bit hwirq)) w (mask_clear-lt 8 (imr1 w) hwirq (pic.byte1 w))
            r in
        rw e (
          (λ q lt. rw a.0 (ground (arith, digit-mask_clear 8 (imr1 w) hwirq q (ground arith) lt))),
          (λ q lt. rw a.1 (ground arith)),
          a.2,
        )
  ]

  -- What disabling `hwirq` makes of the two registers.
  abbrev pub MaskOutcome : ℕ → W → W → Type 0
  MaskOutcome hwirq w w' =
      ((q : ℕ)
        → q < 8
        → digit (imr1 w') q ≡ (
            if (q == hwirq) || (leb 8 hwirq && ((q == 2) && (imr2 w' == 255)))
            then 1
            else digit (imr1 w) q))
      × ((q : ℕ) → q < 8 → digit (imr2 w') q ≡ (if q + 8 == hwirq then 1 else digit (imr2 w) q))
      × IsReady w'

  set_byte :
      (m line q : ℕ)
      → m < 2 ^ 8
      → line < 8
      → digit (mask_set m (bit line) % 2 ^ 8) q ≡ (if line == q then 1 else digit m q)
  set_byte m line q h lt =
      let small : mask_set m (bit line) % 2 ^ 8 ≡ mask_set m (bit line) =
        omega (arith, mask_set-lt 8 m line h lt) in
      rw small (digit-mask_set m line q)

  slave_masked :
      (hwirq : ℕ) (w : W)
      → 8 ≤ hwirq
      → hwirq < 16
      → IsReady w
      → MaskOutcome hwirq w (mask_slave ports (hwirq - 8) (imr2 w, w))
  slave_masked hwirq w ge lt r =
      let mask = mask_set (imr2 w) (bit (hwirq - 8)) % 2 ^ 8 in
      let w1 = ports.write8 data2 mask w in
      let a = pic.write2 mask w (omega arith) r in
      let bits2 : (q : ℕ)
          → q < 8
          → digit mask q ≡ (if q + 8 == hwirq then 1 else digit (imr2 w) q) =
        λ q l. ground (arith, set_byte (imr2 w) (hwirq - 8) q (pic.byte2 w) (omega arith)) in
      elim (Bool-cases (mask == 255)) [
        | inl e ↦
            let b = update1 (λ m. mask_set m (bit 2) % 2 ^ 8) w1 (omega arith) a.2 in
            rw e (
              (λ q l.
                  rw (b.0, b.1, a.0, a.1, e)
                    (ground (arith, set_byte (imr1 w) 2 q (pic.byte1 w) (omega arith)))),
              (λ q l. rw (b.1, a.0) (bits2 q l)),
              b.2,
            )
        | inr e ↦ rw e ((λ q l. rw (a.0, a.1, e) (ground arith)), (λ q l. rw a.0 (bits2 q l)), a.2)
      ]

  -- `i8259_mask_irq` sets the mask bit of the line, and the bit of the cascade line 2 of the master
  -- too if no line of the slave is left enabled, and no other bit of the two registers.
  pub i8259_mask_irq_lem :
      (hwirq : ℕ) (w : W)
      → hwirq < 16
      → IsReady w
      → MaskOutcome hwirq w (i8259_mask_irq ports hwirq w)
  unfolding i8259_mask_irq
  i8259_mask_irq_lem hwirq w h r = elim (Bool-cases (leb 8 hwirq)) [
    | inl e ↦ rw (e, pic.read2 w r) (rw e at (slave_masked hwirq w (ground arith) h r))
    | inr e ↦
        let a = update1 (λ m. mask_set m (bit hwirq) % 2 ^ 8) w (omega arith) r in
        rw e (
          (λ q l. rw a.0 (ground (arith, set_byte (imr1 w) hwirq q (pic.byte1 w) (ground arith)))),
          (λ q l. rw a.1 (ground arith)),
          a.2,
        )
  ]
