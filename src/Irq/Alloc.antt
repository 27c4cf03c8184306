-- ===== src/Irq/Alloc.antt =====
-- `irq_alloc_range` and `irq_free_range` against the set of allocated numbers.
use it_works_os.Base.{
  ℕ, ◌+◌, ◌-◌, ◌≤◌, ◌<◌, ◌≡◌, ◌≢◌, ◌⊎◌, refl, inl, inr, Bool, true, false, arith, if◌then◌else◌,
  ◌==◌, ltb, leb, Bool-cases, ◌||◌, Option, some, none,
}
use it_works_os.Kerror.{Kerror, ok, inval, noent, nospc}
use it_works_os.Bitmap.{test}
use it_works_os.Bitmap.Laws
use it_works_os.Bitmap.Find.{AllSet}
use it_works_os.Bitmap.Range.{all_set}
use it_works_os.Bitmap.Range.Change.{
  AllClear, within, nbits-set_range, nbits-clear_range, set_range-IsValid, clear_range-IsValid,
  test-set_range, test-clear_range, all_set-AllSet, AllSet-all_set,
}
use it_works_os.Bitmap.Range.Scan.{IsFirstFit, scan_lem}
use it_works_os.Irq.{Irq, irq_max, hand_out, irq_alloc_range, irq_free_range}

module _ {W : Type 0} where
  pub record IsValid (s : Irq W) : Type 0 where
    pub bitmap : Laws.IsValid s.allocated
    pub bits : s.allocated.nbits ≡ irq_max

  -- `s'` is `s` with the numbers from `first` up to `first + n` marked by `b`.
  pub record Marks (s s' : Irq W) (first n : ℕ) (b : Bool) : Type 0 where
    pub tests : (q : ℕ) → test s'.allocated q ≡ (if within first n q then b else test s.allocated q)
    pub same_descs : s'.descs ≡ s.descs
    pub valid : IsValid s'

  -- The first run of `n` numbers that are not allocated is handed out, or there is none.
  abbrev pub AllocOutcome : ℕ → Irq W → Kerror × Option ℕ × Irq W → Type 0
  AllocOutcome n s (e, out, s') =
      ((f : ℕ) × (e ≡ ok)
        × (out ≡ some f)
        × (f + n ≤ irq_max)
        × AllClear s.allocated f (f + n)
        × ((g : ℕ) → g < f → ¬ AllClear s.allocated g (g + n))
        × Marks s s' f n true)
      ⊎ ((e ≡ nospc)
          × (out ≡ none)
          × (s' ≡ s)
          × ((g : ℕ) → g + n ≤ irq_max → ¬ AllClear s.allocated g (g + n)))

  abbrev pub FreeOutcome : ℕ → ℕ → Irq W → Kerror × Irq W → Type 0
  FreeOutcome first n s (e, s') =
      ((e ≡ ok)
        × (n ≢ 0)
        × (first + n ≤ irq_max)
        × AllSet s.allocated first (first + n)
        × Marks s s' first n false)
      ⊎ ((e ≡ noent) × (s' ≡ s) × (first + n ≤ irq_max) × (¬ AllSet s.allocated first (first + n)))
      ⊎ ((e ≡ inval) × (s' ≡ s) × ((n ≡ 0) ⊎ (irq_max < first + n)))

  module _ {s : Irq W} (v : IsValid s) (n : ℕ) where
    by_search :
        (o : Option ℕ) → IsFirstFit s.allocated n 0 irq_max o → AllocOutcome n s (hand_out n s o)
    by_search none miss = inr (refl, refl, refl, λ g fits. miss g (omega arith) fits)
    by_search (some f) (_, fits, run, first) =
        let h : f + n ≤ s.allocated.nbits = omega (arith, v.bits) in
        inl (
          f,
          refl,
          refl,
          fits,
          run,
          (λ g lt. first g (omega arith) lt),
          record {
            tests = λ q. test-set_range f n q v.bitmap h;
            same_descs = refl;
            valid = record {
              bitmap = set_range-IsValid f n v.bitmap h;
              bits = omega (arith, nbits-set_range s.allocated f n, v.bits);
            };
          },
        )

    -- For a number of interrupts from 1 to IRQ_MAX `irq_alloc_range` hands out the first run of
    -- numbers that are not allocated and marks exactly those; it says NOSPC, and changes nothing,
    -- only if there is no such run.
    pub irq_alloc_range_lem : n ≢ 0 → n ≤ irq_max → AllocOutcome n s (irq_alloc_range n true s)
    unfolding irq_alloc_range
    irq_alloc_range_lem some_irqs few =
        let e : (n == 0) ≡ false = ground arith in
        let f : ltb irq_max n ≡ false = ground arith in
        rw (e, f) (by_search _ (scan_lem s.allocated n 0 irq_max (omega arith) (omega arith)))

    -- `irq_free_range` on every input: it frees a run of which every number is allocated, and
    -- refuses anything else without a change.
    pub irq_free_range_lem : (first : ℕ) → FreeOutcome first n s (irq_free_range first n s)
    unfolding irq_free_range
    irq_free_range_lem first = elim (Bool-cases (n == 0)) [
      | inl zero ↦ rw zero (inr (inr (refl, refl, inl (ground arith))))
      | inr some_irqs ↦ elim (Bool-cases (leb irq_max first || ltb (irq_max - first) n)) [
        | inl out ↦ rw (some_irqs, out) (inr (inr (refl, refl, inr (ground arith))))
        | inr inside ↦
            let fits : first + n ≤ irq_max = ground arith in
            let h : first + n ≤ s.allocated.nbits = omega (arith, fits, v.bits) in
            elim (Bool-cases (all_set s.allocated first n)) [
              | inr hole ↦
                  rw (some_irqs, inside, hole)
                    (inr (
                      inl (
                        refl,
                        refl,
                        fits,
                        λ all. ground (arith, AllSet-all_set s.allocated first n all),
                      )))
              | inl all ↦
                  rw (some_irqs, inside, all)
                    (inl (
                      refl,
                      ground arith,
                      fits,
                      all_set-AllSet s.allocated first n all,
                      record {
                        tests = λ q. test-clear_range first n q v.bitmap h;
                        same_descs = refl;
                        valid = record {
                          bitmap = clear_range-IsValid first n v.bitmap h;
                          bits = omega (arith, nbits-clear_range s.allocated first n, v.bits);
                        };
                      },
                    ))
            ]
      ]
    ]
