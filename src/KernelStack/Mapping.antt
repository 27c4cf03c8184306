-- ===== src/KernelStack/Mapping.antt =====
-- The loop of kstack_alloc in kernel/mm/kernel_stack.c, which maps new frames to the pages of a slot.
use mathlib.Core.Path.{subst}
use it_works_os.Base.{
  ℕ, zero, suc, ◌+◌, ◌*◌, ◌%◌, ◌^◌, ◌≤◌, ◌<◌, ◌≡◌, ◌⊎◌, inl, inr, refl, arith, true, false,
  if◌then◌else◌, Bool-cases,
}
use it_works_os.KernelStack.{Pages, map_pages}
use it_works_os.Kerror.{Kerror, is_err}

module _ {W : Type 0} (pages : Pages W) where
  -- From `w` to `w'` a new frame is mapped to page `i` of slot `p`, to be read and written.
  pub record PageMapped (p i : ℕ) (w w' : W) : Type 0 where
    pub frame : ℕ
    pub between : W
    pub e : Kerror
    pub allocated : pages.alloc_page w ≡ (e, frame, between)
    pub success : is_err e ≡ false
    pub e' : Kerror
    pub mapped : pages.kern_map (0xF0000000 + 16384 * p + 4096 * i) frame 4096 19 between ≡ (e', w')
    pub success' : is_err e' ≡ false

  -- Page `i` cannot be mapped: there is no frame, or the frame is refused.
  pub data PageFails (p i : ℕ) (e : Kerror) (w w' : W) : Type 0 where
    no_frame : (frame : ℕ) → pages.alloc_page w ≡ (e, frame, w') → PageFails p i e w w'
    refused :
        (e0 : Kerror) (frame : ℕ) (between : W)
        → pages.alloc_page w ≡ (e0, frame, between)
        → is_err e0 ≡ false
        → pages.kern_map (0xF0000000 + 16384 * p + 4096 * i) frame 4096 19 between ≡ (e, w')
        → PageFails p i e w w'

  -- Pages `i` to `j` of slot `p` are mapped in this order.
  pub data PagesMapped (p : ℕ) : ℕ → ℕ → W → W → Type 0 where
    done : {i : ℕ} {w : W} → PagesMapped p i i w w
    next :
        {i j : ℕ} {w w' w'' : W}
        → PageMapped p i w w'
        → PagesMapped p (suc i) j w' w''
        → PagesMapped p i j w w''

  -- What the loop has done, `n` pages from page `i` on.
  abbrev pub LoopOutcome : ℕ → ℕ → ℕ → W → Kerror × W → Type 0
  LoopOutcome p n i w (e, w') =
      ((is_err e ≡ true)
        × (j : ℕ) × (w1 : W) × (j < i + n)
        × PagesMapped p i j w w1
        × PageFails p j e w1 w')
      ⊎ ((is_err e ≡ false) × PagesMapped p i (i + n) w w')

  -- One round of the loop, and the rounds behind it.
  module _ (p n i : ℕ) (w : W)
      (rest : (w2 : W)
        → LoopOutcome p n (i + 1) w2 (map_pages pages (0xF0000000 + 16384 * p) n (i + 1) w2)) where
    page : ℕ
    page = 0xF0000000 + 16384 * p + 4096 * i

    longer :
        (w2 : W)
        → PageMapped p i w w2
        → (r : Kerror × W) → LoopOutcome p n (i + 1) w2 r
        → LoopOutcome p (suc n) i w r
    longer w2 first (e, w') (inl (bad, j, w1, lt, before, fails)) = inl (
      bad,
      j,
      w1,
      omega arith,
      next first (subst (λ x. PagesMapped p x j w2 w1) (omega arith) before),
      fails,
    )
    longer w2 first (e, w') (inr (good, all)) = inr (
      good,
      next first (
          subst (λ x. PagesMapped p x (i + suc n) w2 w') (omega arith)
            (subst (λ x. PagesMapped p (i + 1) x w2 w') (omega arith) all)),
    )

    map_step :
        (e : Kerror) (frame : ℕ) (w1 : W)
        → pages.alloc_page w ≡ (e, frame, w1)
        → is_err e ≡ false
        → (r : Kerror × W) → pages.kern_map page frame 4096 19 w1 ≡ r
        → LoopOutcome p
            (suc n)
            i
            w
            (if is_err r.0 then r else map_pages pages (0xF0000000 + 16384 * p) n (i + 1) r.1)
    unfolding page
    map_step e frame w1 got good (e', w2) put = elim (Bool-cases (is_err e')) [
      | inl bad ↦ rw bad (inl (bad, i, w, omega arith, done, refused e frame w1 got good put))
      | inr fine ↦ rw fine (
          longer w2
            (record {
              frame = frame;
              between = w1;
              e = e;
              allocated = got;
              success = good;
              e' = e';
              mapped = put;
              success' = fine;
            })
            _ (rest w2))
    ]

    frame_step :
        (r : Kerror × ℕ × W)
        → pages.alloc_page w ≡ r
        → LoopOutcome p (suc n) i w (
            if is_err r.0
            then (r.0, r.2)
            else if is_err (pages.kern_map page r.1 4096 19 r.2).0
            then pages.kern_map page r.1 4096 19 r.2
            else map_pages pages
                (0xF0000000 + 16384 * p)
                n
                (i + 1)
                (pages.kern_map page r.1 4096 19 r.2).1)
    frame_step (e, frame, w1) got = elim (Bool-cases (is_err e)) [
      | inl bad ↦ rw bad (inl (bad, i, w, omega arith, done, no_frame frame got))
      | inr good ↦ rw good (map_step e frame w1 got good _ refl)
    ]

  pub map_pages_lem :
      (p : ℕ)
      → p < 64
      → (n i : ℕ) → i + n ≤ 4
      → (w : W) → LoopOutcome p n i w (map_pages pages (0xF0000000 + 16384 * p) n i w)
  unfolding map_pages page
  map_pages_lem p small zero i fits w =
      inr (refl, subst (λ j. PagesMapped p i j w w) (omega arith) done)
  map_pages_lem p small (suc n) i fits w =
      let here : (0xF0000000 + 16384 * p + i * 4096) % 2 ^ 32 ≡ 0xF0000000 + 16384 * p + 4096 * i =
        omega arith in
      rw here (
        frame_step p n i w (λ w2. map_pages_lem p small n (i + 1) (omega arith) w2)
          (pages.alloc_page w) refl)
