-- ===== src/Pmm/Fit.antt =====
-- The search of `pmm_alloc`: the first fit inside the frame numbers that it computes for its window.
use it_works_os.Base.{
  ℕ, ◌+◌, ◌-◌, ◌*◌, ◌%◌, ◌^◌, ◌≤◌, ◌<◌, ◌≡◌, ◌≢◌, ◌⊎◌, refl, inl, inr, true, false, arith, ◌==◌,
  ltb, Bool-cases, Option, some, none,
}
use it_works_os.Kerror.{Kerror, ok, nomem}
use it_works_os.Bitmap.Range.Change.{AllClear}
use it_works_os.Bitmap.Range.Scan.{IsFirstFit, scan_lem}
use it_works_os.Pmm.{
  Pmm, frame_size, frame_to_addr, take_frames, Policy, strict, fallback, start_frame, max_frame,
  search, finish, alloc_strict, alloc,
}
use it_works_os.Pmm.Frames.{IsValid, Marks, small, take_frames-Marks, take_frames-IsValid}

-- A successful allocation of the frames from `f` on: the first free run inside [s, m).
pub record IsAllocated (pmm pmm' : Pmm) (s m pages f : ℕ) : Type 0 where
  pub low : s ≤ f
  pub high : f + pages ≤ m
  pub in_memory : m ≤ pmm.total_frames
  pub was_free : AllClear pmm.bm f (f + pages)
  pub first : (g : ℕ) → s ≤ g → g < f → ¬ AllClear pmm.bm g (g + pages)
  pub marks : Marks pmm pmm' f pages true
  pub count : pmm'.free_frames + pages ≡ pmm.free_frames
  pub valid : IsValid pmm'

-- No run of `pages` free frames lies inside [s, m).
abbrev pub NoRun : Pmm → ℕ → ℕ → ℕ → Type 0
NoRun pmm s m pages = (g : ℕ) → s ≤ g → g + pages ≤ m → ¬ AllClear pmm.bm g (g + pages)

abbrev pub Granted : Pmm → ℕ → ℕ → ℕ → Kerror × Option ℕ × Pmm → Type 0
Granted pmm s m pages (e, out, pmm') =
    (f : ℕ) × (e ≡ ok) × (out ≡ some (f * frame_size)) × IsAllocated pmm pmm' s m pages f

abbrev pub Denied : Pmm → Kerror × Option ℕ × Pmm → Type 0
Denied pmm (e, out, pmm') = (e ≡ nomem) × (out ≡ none) × (pmm' ≡ pmm)

max_frame-le : (pmm : Pmm) (hi : ℕ) → max_frame pmm hi ≤ pmm.total_frames
unfolding max_frame
max_frame-le pmm hi = ground arith

module _ {pmm : Pmm} (v : IsValid pmm) (lo hi pages : ℕ) (some_pages : pages ≢ 0) where
  search-IsFirstFit :
      IsFirstFit pmm.bm pages (start_frame lo) (max_frame pmm hi) (search pmm lo hi pages)
  unfolding search
  search-IsFirstFit = elim (Bool-cases (ltb (start_frame lo) (max_frame pmm hi))) [
    | inl room ↦
        let e : start_frame lo + (max_frame pmm hi - start_frame lo) ≡ max_frame pmm hi =
          ground arith in
        rw room (
          rw e at (
            scan_lem pmm.bm pages (start_frame lo) (max_frame pmm hi - start_frame lo) (omega arith)
              (omega (arith, e, max_frame-le pmm hi, small v 0 0 (omega arith)))))
    | inr shut ↦ rw shut (λ g ge fits. absurd (ground arith))
  ]

  granted :
      (f : ℕ)
      → IsFirstFit pmm.bm pages (start_frame lo) (max_frame pmm hi) (some f)
      → Granted pmm
          (start_frame lo)
          (max_frame pmm hi)
          pages
          (ok, some (frame_to_addr f), take_frames pmm f pages)
  unfolding frame_to_addr
  granted f (low, high, run, first) =
      let fits : f + pages ≤ pmm.total_frames = omega (arith, max_frame-le pmm hi) in
      let t = take_frames-IsValid v f pages fits run in
      let exact : f * 4096 % 2 ^ 64 ≡ f * 4096 = omega (arith, small v f pages fits) in
      (
        f,
        refl,
        rw exact,
        record {
          low = low;
          high = high;
          in_memory = max_frame-le pmm hi;
          was_free = run;
          first = first;
          marks = take_frames-Marks v f pages fits;
          count = t.1;
          valid = t.0;
        },
      )

-- What `pmm_alloc` with PMM_POLICY_STRICT promises.
abbrev pub StrictOutcome : Pmm → ℕ → ℕ → ℕ → Kerror × Option ℕ × Pmm → Type 0
StrictOutcome pmm lo hi pages r =
    Granted pmm (start_frame lo) (max_frame pmm hi) pages r
    ⊎ (Denied pmm r × NoRun pmm (start_frame lo) (max_frame pmm hi) pages)

-- With PMM_POLICY_FALLBACK the whole memory is searched after the window.
abbrev pub FallbackOutcome : Pmm → ℕ → ℕ → ℕ → Kerror × Option ℕ × Pmm → Type 0
FallbackOutcome pmm lo hi pages r =
    Granted pmm (start_frame lo) (max_frame pmm hi) pages r
    ⊎ (NoRun pmm (start_frame lo) (max_frame pmm hi) pages × Granted pmm 0 pmm.total_frames pages r)
    ⊎ (NoRun pmm 0 pmm.total_frames pages × Denied pmm r)

abbrev pub AllocOutcome : Policy → Pmm → ℕ → ℕ → ℕ → Kerror × Option ℕ × Pmm → Type 0
AllocOutcome strict = StrictOutcome
AllocOutcome fallback = FallbackOutcome

module _ {pmm : Pmm} (v : IsValid pmm) (pages : ℕ) (some_pages : pages ≢ 0) where
  enters : (pages == 0) ≡ false
  enters = ground arith

  strict_lem : (lo hi : ℕ) → StrictOutcome pmm lo hi pages (alloc_strict pmm lo hi pages true)
  unfolding alloc_strict
  strict_lem lo hi =
      rw enters (by_search (search pmm lo hi pages) (search-IsFirstFit v lo hi pages some_pages))
    where
      by_search :
          (o : Option ℕ)
          → IsFirstFit pmm.bm pages (start_frame lo) (max_frame pmm hi) o
          → StrictOutcome pmm lo hi pages (finish pmm pages o (nomem, none, pmm))
      by_search none miss = inr ((refl, refl, refl), miss)
      by_search (some f) fit = inl (granted v lo hi pages some_pages f fit)

  whole : (max_frame pmm 0 ≡ pmm.total_frames) × (start_frame 0 ≡ 0)
  unfolding max_frame start_frame
  whole = ground arith

  fallback_lem : (lo hi : ℕ) → FallbackOutcome pmm lo hi pages (alloc pmm lo hi pages fallback true)
  unfolding alloc
  fallback_lem lo hi =
      rw enters (by_search (search pmm lo hi pages) (search-IsFirstFit v lo hi pages some_pages))
    where
      again :
          NoRun pmm (start_frame lo) (max_frame pmm hi) pages
          → StrictOutcome pmm 0 0 pages (alloc_strict pmm 0 0 pages true)
          → FallbackOutcome pmm lo hi pages (alloc_strict pmm 0 0 pages true)
      again miss (inl g) = inr (inl (miss, rw whole.0 at (rw whole.1 at g)))
      again miss (inr (d, m)) = inr (inr (rw whole.0 at (rw whole.1 at m), d))

      by_search :
          (o : Option ℕ)
          → IsFirstFit pmm.bm pages (start_frame lo) (max_frame pmm hi) o
          → FallbackOutcome pmm lo hi pages (finish pmm pages o (alloc_strict pmm 0 0 pages true))
      by_search none miss = again miss (strict_lem 0 0)
      by_search (some f) fit = inl (granted v lo hi pages some_pages f fit)

  -- For a non-zero number of pages `pmm_alloc` takes the first run of free frames inside its
  -- window, returns its address and keeps the count and the invariant; under the fallback policy it
  -- then tries all of memory. It says NOMEM, and changes nothing, only if there is no such run.
  pub alloc_fit :
      (lo hi : ℕ) (p : Policy) → AllocOutcome p pmm lo hi pages (alloc pmm lo hi pages p true)
  unfolding alloc
  alloc_fit lo hi strict = strict_lem lo hi
  alloc_fit lo hi fallback = fallback_lem lo hi
