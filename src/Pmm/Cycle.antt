-- ===== src/Pmm/Cycle.antt =====
-- `pmm_alloc` and `pmm_free` together, in terms of addresses.
use it_works_os.Base.{
  ℕ, ◌+◌, ◌*◌, ◌%◌, ◌^◌, ◌≤◌, ◌<◌, ◌≡◌, ◌≢◌, ◌⊎◌, inl, inr, true, arith, leb, Bool-cases, some, max,
}
use it_works_os.Bits.Align.{align_up_frame}
use it_works_os.Kerror.{Kerror, ok}
use it_works_os.Bitmap.{test}
use it_works_os.Pmm.{
  Pmm, frame_size, addr_to_frame, free, Policy, strict, fallback, start_frame, max_frame, alloc,
}
use it_works_os.Pmm.Frames.{IsValid, small}
use it_works_os.Pmm.Guard.{IsRun, IsTaken, Gave, FreeOutcome, free_by_frame}
use it_works_os.Pmm.Fit.{IsAllocated, AllocOutcome, alloc_fit}

-- The frames that a successful call took, wherever it found them.
record Taken (pmm pmm' : Pmm) (pages a : ℕ) : Type 0 where
  f : ℕ
  at_f : a ≡ f * frame_size
  s : ℕ
  m : ℕ
  allocated : IsAllocated pmm pmm' s m pages f

taken :
    {pmm pmm' : Pmm} {a : ℕ} (p : Policy) (lo hi pages : ℕ)
    → AllocOutcome p pmm lo hi pages (ok, some a, pmm')
    → Taken pmm pmm' pages a
taken strict lo hi pages (inl (f, _, e, t)) = record {
  f = f;
  at_f = cc;
  s = _;
  m = _;
  allocated = t;
}
taken strict lo hi pages (inr ((e, _, _), _)) = cc
taken fallback lo hi pages (inl (f, _, e, t)) = record {
  f = f;
  at_f = cc;
  s = _;
  m = _;
  allocated = t;
}
taken fallback lo hi pages (inr (inl (_, (f, _, e, t)))) = record {
  f = f;
  at_f = cc;
  s = _;
  m = _;
  allocated = t;
}
taken fallback lo hi pages (inr (inr (_, (e, _, _)))) = cc

module _ {pmm pmm' : Pmm} {pages a : ℕ} (v : IsValid pmm) (some_pages : pages ≢ 0) (p : Policy)
    (lo hi : ℕ) (call : alloc pmm lo hi pages p true ≡ (ok, some a, pmm')) where
  got : Taken pmm pmm' pages a
  got = taken p lo hi pages (rw call at (alloc_fit v pages some_pages lo hi p))

  frame_of : addr_to_frame a ≡ got.f
  unfolding addr_to_frame
  frame_of =
      omega
        (arith, got.at_f, got.allocated.high, got.allocated.in_memory, small v 0 0 (omega arith))

  IsTaken-IsRun : IsRun pmm' a pages × IsTaken pmm' a pages
  IsTaken-IsRun = (
    record {
      some_pages = some_pages;
      aligned = omega (arith, got.at_f);
      fits = omega (
        arith, frame_of, got.allocated.high, got.allocated.in_memory,
        got.allocated.marks.same_total,
      );
    },
    λ q ge lt. ground (arith, got.allocated.marks.marked q, frame_of),
  )

  free-Gave :
      (e : Kerror) (pmm'' : Pmm)
      → FreeOutcome pmm' a pages (e, pmm'')
      → (e ≡ ok) × Gave pmm' pmm'' a pages
  free-Gave e pmm'' (inl h) = h
  free-Gave e pmm'' (inr (_, _, refused)) = absurd (refused IsTaken-IsRun)

  -- Freeing what `pmm_alloc` has just returned succeeds, and brings back the state of every frame
  -- and the count of free frames.
  pub free-alloc :
      let (e, pmm'') = free pmm' a pages in
      (e ≡ ok)
      × IsValid pmm''
      × (pmm''.free_frames ≡ pmm.free_frames)
      × ((q : ℕ) → test pmm''.bm q ≡ test pmm.bm q)
  free-alloc =
      let (e, g) = free-Gave _ _ (free_by_frame got.allocated.valid a pages) in
      (
        e,
        g.valid,
        omega (arith, g.count, got.allocated.count),
        λ q. ground (
          arith,
          g.marks.marked q,
          got.allocated.marks.marked q,
          frame_of,
          got.allocated.was_free q,
        ),
      )

  -- What is returned next, before a free, does not overlap it.
  pub alloc-alloc :
      {pmm'' : Pmm} {b : ℕ} (p' : Policy) (lo' hi' pages' : ℕ)
      → pages' ≢ 0
      → alloc pmm' lo' hi' pages' p' true ≡ (ok, some b, pmm'')
      → (a + pages * frame_size ≤ b) ⊎ (b + pages' * frame_size ≤ a)
  alloc-alloc {pmm''} {b} p' lo' hi' pages' some' call' =
      elim (Bool-cases (leb (got.f + pages) got'.f)) [
        | inl before ↦ inl (ground (arith, got.at_f, got'.at_f))
        | inr over ↦ elim (Bool-cases (leb (got'.f + pages') got.f)) [
          | inl after ↦ inr (ground (arith, got.at_f, got'.at_f))
          | inr over' ↦ ground (
            arith,
            got.allocated.marks.marked (max got.f got'.f),
            got'.allocated.was_free (max got.f got'.f),
          )
        ]
      ]
    where
      got' : Taken pmm' pmm'' pages' b
      got' =
          taken p' lo' hi' pages'
            (rw call' at (alloc_fit got.allocated.valid pages' some' lo' hi' p'))

-- Under the strict policy the run that `pmm_alloc` returns is page aligned and lies inside the
-- bounds asked for: from `min` on, and below `max` where that is not 0. The bounds are addresses
-- below 2^44, whose frame numbers fit 32 bits.
pub alloc_bounds :
    {pmm pmm' : Pmm} {a : ℕ} (lo hi pages : ℕ)
    → IsValid pmm
    → pages ≢ 0
    → lo + 4095 < 2 ^ 44
    → hi < 2 ^ 44
    → alloc pmm lo hi pages strict true ≡ (ok, some a, pmm')
    → (a % frame_size ≡ 0) × (lo ≤ a) × (hi ≢ 0 → a + pages * frame_size ≤ hi)
alloc_bounds {pmm} {pmm'} {a} lo hi pages v some_pages hlo hhi call =
    go (rw call at (alloc_fit v pages some_pages lo hi strict))
  where
    low : lo ≤ start_frame lo * 4096
    low = unfold start_frame addr_to_frame in ground (arith, align_up_frame lo)

    high : hi ≢ 0 → max_frame pmm hi * 4096 ≤ hi
    high h = unfold max_frame addr_to_frame in ground arith

    go :
        AllocOutcome strict pmm lo hi pages (ok, some a, pmm')
        → (a % frame_size ≡ 0) × (lo ≤ a) × (hi ≢ 0 → a + pages * frame_size ≤ hi)
    go (inl (f, _, e, t)) =
        let e' : a ≡ f * 4096 = cc in
        (omega arith, omega (arith, low, t.low), λ h. omega (arith, high h, t.high))
    go (inr ((e, _, _), _)) = cc
