-- ===== src/KernelStack/Slots.antt =====
-- The slots of kernel/mm/kernel_stack.c are given out one at a time, and given back.
use mathlib.Core.Path.{subst}
use it_works_os.Base.{
  ℕ, ◌+◌, ◌-◌, ◌*◌, ◌/◌, ◌%◌, ◌^◌, ◌≤◌, ◌<◌, ◌≡◌, ◌≢◌, ◌⊎◌, inl, inr, refl, ap, sym, ◌∙◌, arith,
  Bool, true, false, not, ◌||◌, Option, none, some, if◌then◌else◌, ◌==◌, ==_iff, Bool-cases,
}
use it_works_os.Bitmap.{Bitmap, test, find_zero, set, clear}
use it_works_os.Bitmap.Laws.{
  IsValid, test-set, test-clear, set-IsValid, clear-IsValid, nbits-set, nbits-clear,
}
use it_works_os.Bitmap.Find.{AllSet, IsFirstClear, find_zero-IsFirstClear}
use it_works_os.KernelStack.{
  Pages, KernelStack, map_pages, unmap_pages, with_pages, at_slot, kstack_alloc, kstack_free,
}
use it_works_os.KernelStack.Mapping.{PagesMapped, PageFails, LoopOutcome, map_pages_lem}
use it_works_os.Kerror.{Kerror, ok, exists, nospc, is_err}

-- The bitmap has a bit for each of the 64 slots.
pub record IsReady (bm : Bitmap) : Type 0 where
  pub valid : IsValid bm
  pub bits : bm.nbits ≡ 64

-- The stack in slot `p`: 16 KiB between 0xF0000000 and 0xF0100000.
abbrev pub InSlot : ℕ → KernelStack → Type 0
InSlot p s = (p < 64) × (s.base ≡ 0xF0000000 + 16384 * p) × (s.size ≡ 16384)

pub record Marks (bm bm' : Bitmap) (p : ℕ) (b : Bool) : Type 0 where
  pub tests : (q : ℕ) → test bm' q ≡ (if p == q then b else test bm q)
  pub ready : IsReady bm'

module _ {W : Type 0} (pages : Pages W) where
  -- The first free slot is given to a blank stack when its pages can be mapped.
  abbrev pub AllocOutcome :
      KernelStack → Bitmap → W → Kerror × Option KernelStack × Bitmap × W → Type 0
  AllocOutcome s bm w r =
      (((s.base ≢ 0) ⊎ (s.size ≢ 0)) × (r ≡ (exists, some s, bm, w)))
      ⊎ (AllSet bm 0 64 × (r ≡ (nospc, some s, bm, w)))
      ⊎ ((p : ℕ) × (e : Kerror) × (w' : W) × AllSet bm 0 p
          × (test bm p ≡ false)
          × (((is_err e ≡ true)
                × (r ≡ (e, some s, bm, w'))
                × (i : ℕ) × (w1 : W) × (i < 4)
                × PagesMapped pages p 0 i w w1
                × PageFails pages p i e w1 w')
              ⊎ ((e ≡ ok)
                  × PagesMapped pages p 0 4 w w'
                  × (s' : KernelStack) × (bm' : Bitmap) × (r ≡ (ok, some s', bm', w'))
                  × InSlot p s'
                  × Marks bm bm' p true)))

  is_ok : (e : Kerror) → is_err e ≡ false → e ≡ ok
  is_ok ok h = refl
  is_ok _ h = cc

  module _ (s : KernelStack) {bm : Bitmap} (ready : IsReady bm) (w : W) where
    slot_lem : (o : Option ℕ) → IsFirstClear bm 0 o → AllocOutcome s bm w (at_slot pages o s bm w)
    slot_lem none full = inr (inl (λ q ge lt. full q ge (omega (arith, ready.bits)), refl))
    slot_lem (some p) (_, lt, is_clear, before) =
        let small : p < 64 = omega (arith, ready.bits) in
        let base : (0xF0000000 + 4 * p * 4096) % 2 ^ 32 ≡ 0xF0000000 + 16384 * p = omega arith in
        rw base (
          go (map_pages pages (0xF0000000 + 16384 * p) 4 0 w)
            (map_pages_lem pages p small 4 0 (omega arith) w) small)
      where
        go :
            (r : Kerror × W)
            → LoopOutcome pages p 4 0 w r
            → p < 64
            → AllocOutcome s bm w (with_pages pages p (0xF0000000 + 16384 * p) s bm r)
        go (e, w') (inl (bad, i, w1, lt, mapped, fails)) small = inr (
            inr (
              p,
              e,
              w',
              before,
              is_clear,
              inl (bad, rw bad refl, i, w1, omega arith, mapped, fails),
            ))
        go (e, w') (inr (good, mapped)) small = inr (
            inr (
              p,
              e,
              w',
              before,
              is_clear,
              inr (
                is_ok e good,
                mapped,
                record s { base = 0xF0000000 + 16384 * p; size = 16384 },
                set bm p,
                rw good refl,
                (small, refl, refl),
                record {
                  tests = test-set p ready.valid lt;
                  ready = record {
                    valid = set-IsValid p ready.valid lt;
                    bits = nbits-set bm p ∙ ready.bits;
                  };
                },
              ),
            ))

    pub kstack_alloc_lem : AllocOutcome s bm w (kstack_alloc pages (some s) bm w)
    unfolding kstack_alloc
    kstack_alloc_lem = elim (Bool-cases (not (s.base == 0) || not (s.size == 0))) [
      | inl used ↦ rw used (inl (ground arith, refl))
      | inr blank ↦ rw blank (slot_lem (find_zero bm) (find_zero-IsFirstClear ready.valid))
    ]

  some_injective : (x y : KernelStack) → some x ≡ some y → x ≡ y
  some_injective x y e = cc

  -- What a successful call has given.
  record Given (bm bm' : Bitmap) (s' : KernelStack) : Type 0 where
    slot : ℕ
    in_slot : InSlot slot s'
    was_free : test bm slot ≡ false
    marks : Marks bm bm' slot true

  given :
      (s s' : KernelStack) {bm bm' : Bitmap} (w w' : W)
      → IsReady bm
      → kstack_alloc pages (some s) bm w ≡ (ok, some s', bm', w')
      → Given bm bm' s'
  given s s' {bm} {bm'} w w' ready call = go (kstack_alloc_lem s ready w)
    where
      go : AllocOutcome s bm w (kstack_alloc pages (some s) bm w) → Given bm bm' s'
      go (inl (_, r)) = cc
      go (inr (inl (_, r))) = cc
      go (inr (inr (p, e, w1, _, is_free, inl (bad, r, _, _, _, _, _)))) =
          let e_ok : e ≡ ok = ap (λ q. q.0) (sym r ∙ call) in cc (sym bad ∙ ap is_err e_ok)
      go (inr (inr (p, e, w1, _, is_free, inr (_, _, s1, bm1, r, in_slot, marks)))) =
          let same = sym r ∙ call in
          let s_eq : some s1 ≡ some s' = ap (λ q. q.1) same in
          let bm_eq : bm1 ≡ bm' = ap (λ q. q.2) same in
          record {
            slot = p;
            in_slot = subst (InSlot p) (some_injective s1 s' s_eq) in_slot;
            was_free = is_free;
            marks = subst (λ b. Marks bm b p true) bm_eq marks;
          }

  -- Two stacks that are allocated one after the other lie apart.
  pub kstack_alloc-apart :
      (s s' t t' : KernelStack) {bm bm1 bm2 : Bitmap} (w w1 w2 : W)
      → IsReady bm
      → kstack_alloc pages (some s) bm w ≡ (ok, some s', bm1, w1)
      → kstack_alloc pages (some t) bm1 w1 ≡ (ok, some t', bm2, w2)
      → (s'.base + s'.size ≤ t'.base) ⊎ (t'.base + t'.size ≤ s'.base)
  kstack_alloc-apart s s' t t' w w1 w2 ready first second =
      let g = given s s' w w1 ready first in
      let h = given t t' w1 w2 g.marks.ready second in
      ground (arith, g.in_slot, h.in_slot, h.was_free, g.marks.tests h.slot)

  -- When its pages can be unmapped, kstack_free of a stack that kstack_alloc has just given is OK,
  -- clears the stack, and every slot is free or taken as before.
  pub kstack_free-kstack_alloc :
      (s s' : KernelStack) {bm bm' : Bitmap} (w w' w'' : W)
      → IsReady bm
      → kstack_alloc pages (some s) bm w ≡ (ok, some s', bm', w')
      → unmap_pages pages s'.base 4 0 w' ≡ (ok, w'')
      → (bm'' : Bitmap) × (kstack_free pages (some s') bm' w'
          ≡ (ok, some (record { base = 0; stack_pointer = 0; size = 0 }), bm'', w''))
        × IsReady bm''
        × ((q : ℕ) → test bm'' q ≡ test bm q)
  unfolding kstack_free
  kstack_free-kstack_alloc s s' {bm} {bm'} w w' w'' ready call unmapped =
      let g = given s s' w w' ready call in
      let p = g.slot in
      let at : (s'.base + 2 ^ 32 - 0xF0000000) % 2 ^ 32 / 16384 ≡ p = omega (arith, g.in_slot) in
      let live : ((s'.base == 0) || (s'.size == 0)) ≡ false = ground (arith, g.in_slot) in
      let lt : p < bm'.nbits = omega (arith, g.in_slot, g.marks.ready.bits) in
      let clears = test-clear p g.marks.ready.valid lt in
      (
        clear bm' p,
        rw (live, unmapped, at) refl,
        record {
          valid = clear-IsValid p g.marks.ready.valid lt;
          bits = nbits-clear bm' p ∙ g.marks.ready.bits;
        },
        λ q. ground (arith, clears q, g.marks.tests q, g.was_free, ap (test bm) ((==_iff p q).0 _)),
      )
