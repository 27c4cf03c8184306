-- ===== src/Irq.antt =====
-- kernel/irq/irq.c, kernel/irq/desc.c and kernel/irq/map.c: virtual interrupt numbers.
-- The bitmap of allocated numbers and the table of descriptors are the record `Irq`. What drivers
-- and interrupt handlers change outside of it is a state `W` of which nothing is assumed: a chip
-- and a handler are functions on it.
pub mod Alloc
pub mod Request
pub mod Mapping
mod Tests
use it_works_os.Base.{
  ℕ, ◌+◌, ◌-◌, ◌%◌, ◌^◌, Bool, true, false, not, ◌||◌, Option, none, some, List, if◌then◌else◌,
  ◌==◌, ltb, leb, is_some,
}
use it_works_os.Kerror.{Kerror, ok, inval, noent, busy, nospc, is_err}
use it_works_os.Bitmap
use it_works_os.Bitmap.{Bitmap, test}
use it_works_os.Bitmap.Range.{set_range, clear_range, all_set, scan}

-- `IRQ_MAX` and `IRQ_INVALID`
abbrev pub irq_max : ℕ
irq_max = 256

abbrev pub irq_invalid : ℕ
irq_invalid = 2 ^ 32 - 1

-- `struct irq_map`, less its name
pub record IrqMap : Type 0 where
  pub first_hwirq : ℕ
  pub first_irq : ℕ
  pub count : ℕ

module _ (W : Type 0) where
  -- `struct irq_chip`. A driver reads of a descriptor its `hwirq` alone, which is what its
  -- functions take here; `handle_vector` also writes a hardware number.
  pub record IrqChip : Type 0 where
    pub handle_vector : ℕ → W → Kerror × ℕ × W
    pub disable : ℕ → W → W
    pub enable : ℕ → W → W
    pub eoi : ℕ → W → W

  -- `struct irq_desc`: `none` is NULL.
  pub record IrqDesc : Type 0 where
    pub hwirq : ℕ
    pub map : Option IrqMap
    pub chip : Option IrqChip
    pub handler : Option (ℕ → W → W)
    pub dev_id : ℕ

  pub record Irq : Type 0 where
    pub allocated : Bitmap
    pub descs : ℕ → IrqDesc

module _ {W : Type 0} where
  -- `irq_descs[irq] = d`
  pub put : (ℕ → IrqDesc W) → ℕ → IrqDesc W → ℕ → IrqDesc W
  put descs irq d i = if i == irq then d else descs i

  -- `irq_init`, over the static array
  pub irq_init : List ℕ → Irq W → Kerror × Irq W
  irq_init storage s = (ok, record s { allocated = Bitmap.init s.allocated storage irq_max })

  -- What follows the search of `irq_alloc_range`.
  abbrev pub hand_out : ℕ → Irq W → Option ℕ → Kerror × Option ℕ × Irq W
  hand_out n s none = (nospc, none, s)
  hand_out n s (some first) =
      (ok, some first, record s { allocated = set_range s.allocated first n })

  -- `irq_alloc_range`: `out` tells whether the pointer is not null, and the option is what is
  -- written through it.
  pub irq_alloc_range : ℕ → Bool → Irq W → Kerror × Option ℕ × Irq W
  irq_alloc_range n out s =
      if (n == 0) || not out
      then (inval, none, s)
      else if ltb irq_max n
      then (inval, none, s)
      else hand_out n s (scan s.allocated n irq_max 0 0)

  pub irq_free_range : ℕ → ℕ → Irq W → Kerror × Irq W
  irq_free_range first n s =
      if n == 0
      then (inval, s)
      else if leb irq_max first || ltb (irq_max - first) n
      then (inval, s)
      else if not (all_set s.allocated first n)
      then (noent, s)
      else (ok, record s { allocated = clear_range s.allocated first n })

  pub irq_is_allocated : Irq W → ℕ → Bool
  irq_is_allocated s irq = if leb irq_max irq then false else test s.allocated irq

  pub irq_desc_get : Irq W → ℕ → Option (IrqDesc W)
  irq_desc_get s irq = if leb irq_max irq then none else some (s.descs irq)

  -- `!desc->map || !desc->chip`
  abbrev pub is_configured : IrqDesc W → Bool
  is_configured d = elim d.map [
    | none ↦ false
    | some m ↦ elim d.chip [ none ↦ false | some c ↦ true ]
  ]

  pub irq_request : ℕ → Option (ℕ → W → W) → ℕ → Irq W → Kerror × Irq W
  irq_request irq handler dev_id s =
      let d = s.descs irq in
      if not (is_some handler) || leb irq_max irq
      then (inval, s)
      else if not (irq_is_allocated s irq)
      then (noent, s)
      else if not (is_configured d)
      then (noent, s)
      else if is_some d.handler
      then (busy, s)
      else (
        ok,
        record s { descs = put s.descs irq (record d { handler = handler; dev_id = dev_id }) },
      )

  pub irq_free : ℕ → Irq W → Kerror × Irq W
  irq_free irq s =
      let d = s.descs irq in
      if leb irq_max irq
      then (inval, s)
      else if not (irq_is_allocated s irq)
      then (noent, s)
      else if not (is_configured d)
      then (noent, s)
      else if not (is_some d.handler)
      then (noent, s)
      else (ok, record s { descs = put s.descs irq (record d { handler = none }) })

  pub irq_desc_configure : ℕ → ℕ → Option IrqMap → Option (IrqChip W) → Irq W → Kerror × Irq W
  irq_desc_configure irq hwirq none chip s = (inval, s)
  irq_desc_configure irq hwirq (some map) none s = (inval, s)
  irq_desc_configure irq hwirq (some map) (some chip) s =
      if leb irq_max irq
      then (inval, s)
      else if not (irq_is_allocated s irq)
      then (noent, s)
      else if is_some (s.descs irq).map
      then (busy, s)
      else if ltb hwirq map.first_hwirq || leb ((map.first_hwirq + map.count) % 2 ^ 32) hwirq
      then (inval, s)
      else (
        ok,
        record s {
          descs =
              put s.descs irq
                (record (s.descs irq) { hwirq = hwirq; map = some map; chip = some chip });
        },
      )

  -- `irq_map_init`; the pointers are not null. The caller's map is overwritten on success.
  abbrev pub map_of : ℕ → ℕ → Kerror × Option ℕ × Irq W → Kerror × Option IrqMap × Irq W
  map_of first_hwirq count (e, none, s) = (e, none, s)
  map_of first_hwirq count (e, some irq, s) =
      (e, some (record { first_hwirq = first_hwirq; first_irq = irq; count = count }), s)

  pub irq_map_init : ℕ → ℕ → Irq W → Kerror × Option IrqMap × Irq W
  irq_map_init first_hwirq count s =
      if count == 0
      then (inval, none, s)
      else map_of first_hwirq count (irq_alloc_range count true s)

  pub irq_map_destroy : IrqMap → Irq W → Kerror × Irq W
  irq_map_destroy map s = irq_free_range map.first_irq map.count s

-- `irq_map_hwirq_to_irq`, in `uint32_t`
pub irq_map_hwirq_to_irq : IrqMap → ℕ → ℕ
irq_map_hwirq_to_irq map hwirq =
    if ltb hwirq map.first_hwirq || leb ((map.first_hwirq + map.count) % 2 ^ 32) hwirq
    then irq_invalid
    else (map.first_irq + (hwirq - map.first_hwirq)) % 2 ^ 32

module _ {W : Type 0} where
  -- The end of `irq_dispatch`, at the descriptor that was found.
  abbrev pub handle : IrqChip W → Option (IrqDesc W) → W → Kerror × W
  handle chip none w = (noent, w)
  handle chip (some d) w = elim d.handler [
    | none ↦ (noent, w)
    | some handler ↦ (ok, chip.eoi d.hwirq (handler d.dev_id w))
  ]

  -- `irq_dispatch`; the chip and the map are not null.
  pub irq_dispatch : IrqChip W → IrqMap → ℕ → Irq W → W → Kerror × W
  irq_dispatch chip map vector s w =
      let (e, hwirq, w') = chip.handle_vector vector w in
      let irq = irq_map_hwirq_to_irq map hwirq in
      if is_err e
      then (e, w')
      else if irq == irq_invalid
      then (noent, w')
      else handle chip (irq_desc_get s irq) w'

  -- The call through the chip of a descriptor.
  abbrev pub by_chip : (IrqChip W → ℕ → W → W) → Irq W → ℕ → W → Kerror × W
  by_chip op s irq w = if leb irq_max irq then (inval, w) else elim (s.descs irq).chip [
    | none ↦ (noent, w)
    | some chip ↦ (ok, op chip (s.descs irq).hwirq w)
  ]

  pub irq_enable : Irq W → ℕ → W → Kerror × W
  irq_enable s irq w = by_chip (λ chip. chip.enable) s irq w

  pub irq_disable : Irq W → ℕ → W → Kerror × W
  irq_disable s irq w = by_chip (λ chip. chip.disable) s irq w
