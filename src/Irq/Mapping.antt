-- ===== src/Irq/Mapping.antt =====
-- `struct irq_map`: from hardware numbers to a run of virtual ones, and what outlives it.
use it_works_os.Base.{
  ℕ, ◌+◌, ◌-◌, ◌^◌, ◌≤◌, ◌<◌, ◌≡◌, ◌≢◌, ◌⊎◌, refl, inl, inr, true, false, arith, ◌==◌, ltb,
  Bool-cases, Option, some, none, ap,
}
use it_works_os.Kerror.{Kerror, ok, inval, busy}
use it_works_os.Bitmap.{test}
use it_works_os.Irq.{
  Irq, IrqMap, IrqChip, irq_max, irq_invalid, irq_is_allocated, irq_alloc_range, irq_map_init,
  irq_map_destroy, map_of, irq_map_hwirq_to_irq, irq_desc_configure,
}
use it_works_os.Irq.Alloc.{
  IsValid, AllocOutcome, FreeOutcome, irq_alloc_range_lem, irq_free_range_lem,
}

-- The virtual number of a hardware number: it was not allocated before the map was made, and is now.
pub record IsFresh {W : Type 0} (s s' : Irq W) (irq : ℕ) : Type 0 where
  pub in_range : irq < irq_max
  pub was_free : test s.allocated irq ≡ false
  pub is_taken : irq_is_allocated s' irq ≡ true

-- The hardware numbers from `first` on go to fresh virtual ones, in order, and no others do.
abbrev pub ToFresh : {W : Type 0} → Irq W → Irq W → IrqMap → ℕ → ℕ → Type 0
ToFresh s s' map first count =
    ((hwirq : ℕ)
      → first ≤ hwirq
      → hwirq < first + count
      → (irq_map_hwirq_to_irq map hwirq ≡ map.first_irq + (hwirq - first))
        × IsFresh s s' (irq_map_hwirq_to_irq map hwirq))
    × ((hwirq : ℕ)
        → (hwirq < first) ⊎ (first + count ≤ hwirq)
        → irq_map_hwirq_to_irq map hwirq ≡ irq_invalid)

module _ {W : Type 0} {s s' : Irq W} {map : IrqMap} (v : IsValid s) (first count : ℕ)
    (small : first + count < 2 ^ 32) where
  of_outcome :
      (r : Kerror × Option ℕ × Irq W)
      → AllocOutcome count s r
      → map_of first count r ≡ (ok, some map, s')
      → ToFresh s s' map first count
  unfolding irq_map_hwirq_to_irq irq_is_allocated
  of_outcome (e, none, t) (inl (f, _, absent, _, _, _, _)) made = cc
  of_outcome (e, none, t) (inr (code, _, _, _)) made = cc
  of_outcome (e, some g, t) (inr (_, absent, _, _)) made = cc
  of_outcome (e, some g, t) (inl (f, _, at, fits, run, _, marks)) made =
      let a : map.first_hwirq ≡ first = ground arith in
      let b : map.first_irq ≡ f = ground arith in
      let c : map.count ≡ count = ground arith in
      let d : s' ≡ t = ground arith in
      (
        (λ hwirq lo hi.
            let where_to : irq_map_hwirq_to_irq map hwirq ≡ f + (hwirq - first) = ground arith in
            rw where_to (
              ground arith,
              record {
                in_range = omega arith;
                was_free = run (f + (hwirq - first)) (omega arith) (omega arith);
                is_taken = rw d (ground (arith, marks.tests (f + (hwirq - first))));
              },
            )),
        λ hwirq out. ground arith,
      )

  -- A map that `irq_map_init` made sends its hardware numbers, one to one and in order, to virtual
  -- numbers that nobody had before and that are allocated now, and any other number to
  -- IRQ_INVALID. The hardware numbers must not reach 2^32.
  pub hwirq_to_irq-map_init :
      irq_map_init first count s ≡ (ok, some map, s') → ToFresh s s' map first count
  unfolding irq_map_init
  hwirq_to_irq-map_init made = elim (Bool-cases (count == 0)) [
    | inl none_at_all ↦ absurd (ground arith)
    | inr some_irqs ↦ elim (Bool-cases (ltb irq_max count)) [
      | inl many ↦ absurd (ground (arith, too_many many))
      | inr few ↦
          of_outcome _ (irq_alloc_range_lem v count (ground arith) (ground arith))
            (rw some_irqs at made)
    ]
  ]
    where
      too_many : ltb irq_max count ≡ true → irq_alloc_range count true s ≡ (inval, none, s)
      too_many many = unfold irq_alloc_range in ground arith

descs-destroy :
    {W : Type 0} {s s' : Irq W} (map : IrqMap)
    → IsValid s
    → irq_map_destroy map s ≡ (ok, s')
    → IsValid s' × (s'.descs ≡ s.descs)
unfolding irq_map_destroy
descs-destroy {s} {s'} map v destroyed =
    go _ (rw destroyed at (irq_free_range_lem v map.count map.first_irq)) refl
  where
    go :
        (r : Kerror × Irq _)
        → FreeOutcome map.first_irq map.count s r
        → r ≡ (ok, s')
        → IsValid s' × (s'.descs ≡ s.descs)
    go (e, t) (inl (_, _, _, _, marks)) eq =
        let d : s' ≡ t = cc in rw d (marks.valid, marks.same_descs)
    go (e, t) (inr (inl (code, _, _, _))) eq = cc
    go (e, t) (inr (inr (code, _, _))) eq = cc

-- `irq_map_destroy` does not clear the descriptors: when one of its configured numbers is handed
-- out again, `irq_desc_configure` refuses it as busy, for every map and chip.
pub configure-destroy :
    {W : Type 0} {s s' s'' : Irq W} {f : ℕ} {m : IrqMap} (map map' : IrqMap) (chip : IrqChip W)
    (n irq hwirq : ℕ)
    → IsValid s
    → irq_map_destroy map s ≡ (ok, s')
    → n ≢ 0
    → n ≤ irq_max
    → irq_alloc_range n true s' ≡ (ok, some f, s'')
    → f ≤ irq
    → irq < f + n
    → (s.descs irq).map ≡ some m
    → irq_desc_configure irq hwirq (some map') (some chip) s'' ≡ (busy, s'')
unfolding irq_desc_configure irq_is_allocated
configure-destroy {s} {s'} {s''} {f} {m} map map' chip n irq hwirq v destroyed pos few again lo hi
      old =
    let d = descs-destroy map v destroyed in
    go _ (rw again at (irq_alloc_range_lem d.0 n pos few)) refl d.1
  where
    go :
        (r : Kerror × Option ℕ × Irq _)
        → AllocOutcome n s' r
        → r ≡ (ok, some f, s'')
        → s'.descs ≡ s.descs
        → irq_desc_configure irq hwirq (some map') (some chip) s'' ≡ (busy, s'')
    go (e, out, t) (inl (g, _, at, fits, _, _, marks)) eq same =
        let d : t ≡ s'' = cc in
        let b : g ≡ f = cc in
        let t_descs : s''.descs ≡ s.descs = cc (marks.same_descs, same) in
        let bits = rw d at (marks.tests irq) in
        ground (arith, ap (λ (k : ℕ → _). (k irq).map) t_descs, bits)
    go (e, out, t) (inr (code, _, _, _)) eq same = cc
