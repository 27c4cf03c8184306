-- ===== src/Pmm/Alloc.antt =====
-- `pmm_alloc` in terms of the addresses of its window.
use it_works_os.Base.{
  ℕ, ◌+◌, ◌*◌, ◌/◌, ◌^◌, ◌≤◌, ◌<◌, ◌≡◌, ◌≢◌, ◌⊎◌, inl, inr, true, arith, ◌==◌, Bool-cases, Option,
  some, none,
}
use it_works_os.Bits.Align.{align_up_frame}
use it_works_os.Kerror.{Kerror, ok, nomem}
use it_works_os.Bitmap.Range.Change.{AllClear}
use it_works_os.Pmm.{Pmm, addr_to_frame, Policy, strict, fallback, start_frame, max_frame, alloc}
use it_works_os.Pmm.Fit
use it_works_os.Pmm.Fit.{IsAllocated, alloc_fit}
use it_works_os.Pmm.Frames.{IsValid, Marks}

-- `pages` frames from `g` on lie in memory and inside the addresses from `lo` on and, where `hi` is
-- not 0, below `hi`.
pub record InWindow (pmm : Pmm) (lo hi pages g : ℕ) : Type 0 where
  pub above : lo ≤ g * 4096
  pub below : (hi ≡ 0) ⊎ ((g + pages) * 4096 ≤ hi)
  pub in_memory : g + pages ≤ pmm.total_frames

-- The first free run of the window is allocated, and its address returned.
pub record Granted (pmm : Pmm) (lo hi pages : ℕ) (e : Kerror) (out : Option ℕ) (pmm' : Pmm)
    : Type 0 where
  pub f : ℕ
  pub success : e ≡ ok
  pub address : out ≡ some (f * 4096)
  pub inside : InWindow pmm lo hi pages f
  pub was_free : AllClear pmm.bm f (f + pages)
  pub first : (g : ℕ) → InWindow pmm lo hi pages g → g < f → ¬ AllClear pmm.bm g (g + pages)
  pub marks : Marks pmm pmm' f pages true
  pub count : pmm'.free_frames + pages ≡ pmm.free_frames
  pub valid : IsValid pmm'

-- No run of `pages` free frames lies inside the window.
abbrev pub NoRun : Pmm → ℕ → ℕ → ℕ → Type 0
NoRun pmm lo hi pages = (g : ℕ) → InWindow pmm lo hi pages g → ¬ AllClear pmm.bm g (g + pages)

abbrev pub Denied : Pmm → Kerror → Option ℕ → Pmm → Type 0
Denied pmm e out pmm' = (e ≡ nomem) × (out ≡ none) × (pmm' ≡ pmm)

abbrev pub AllocOutcome : Policy → Pmm → ℕ → ℕ → ℕ → Kerror × Option ℕ × Pmm → Type 0
AllocOutcome strict pmm lo hi pages (e, out, pmm') =
    Granted pmm lo hi pages e out pmm' ⊎ (NoRun pmm lo hi pages × Denied pmm e out pmm')
AllocOutcome fallback pmm lo hi pages (e, out, pmm') =
    Granted pmm lo hi pages e out pmm'
    ⊎ (NoRun pmm lo hi pages × Granted pmm 0 0 pages e out pmm')
    ⊎ (NoRun pmm 0 0 pages × Denied pmm e out pmm')

module _ {pmm : Pmm} (v : IsValid pmm) {pages : ℕ} (lo hi : ℕ) (lo_small : lo + 4096 ≤ 2 ^ 44)
    (hi_small : hi < 2 ^ 44) (some_pages : pages ≢ 0) where
  start_eq : start_frame lo ≡ (lo + 4095) / 4096
  unfolding start_frame addr_to_frame
  start_eq = ground (arith, align_up_frame lo)

  to_window :
      (g : ℕ) → start_frame lo ≤ g → g + pages ≤ max_frame pmm hi → InWindow pmm lo hi pages g
  unfolding max_frame addr_to_frame
  to_window g ge fits = record {
    above = omega (arith, start_eq);
    below = elim (Bool-cases (hi == 0)) [
      | inl unbounded ↦ inl (ground arith)
      | inr bounded ↦ inr (ground arith)
    ];
    in_memory = ground arith;
  }

  from_window :
      (g : ℕ) → InWindow pmm lo hi pages g → (start_frame lo ≤ g) × (g + pages ≤ max_frame pmm hi)
  unfolding max_frame addr_to_frame
  from_window g w = (omega (arith, start_eq, w.above), ground (arith, w.below, w.in_memory))

  to_NoRun : Fit.NoRun pmm (start_frame lo) (max_frame pmm hi) pages → NoRun pmm lo hi pages
  to_NoRun miss g w = let (ge, fits) = from_window g w in miss g ge fits

  to_Granted :
      (e : Kerror) (out : Option ℕ) (pmm' : Pmm)
      → Fit.Granted pmm (start_frame lo) (max_frame pmm hi) pages (e, out, pmm')
      → Granted pmm lo hi pages e out pmm'
  to_Granted e out pmm' (f, success, address, t) = record {
    f = f;
    success = success;
    address = address;
    inside = to_window f t.low t.high;
    was_free = t.was_free;
    first = λ g w lt. t.first g (from_window g w).0 lt;
    marks = t.marks;
    count = t.count;
    valid = t.valid;
  }

module _ {pmm : Pmm} (v : IsValid pmm) {pages : ℕ} (some_pages : pages ≢ 0) where
  whole : (max_frame pmm 0 ≡ pmm.total_frames) × (start_frame 0 ≡ 0)
  unfolding max_frame start_frame
  whole = ground arith

  -- For a non-zero number of pages, a lower bound up to 2^44 - 4096 and an upper one below 2^44,
  -- `pmm_alloc` takes the first run of free frames whose addresses lie from `lo` on and, where `hi` is
  -- not 0, end below `hi`, returns its address and keeps the count and the invariant; under the fallback
  -- policy it then tries all of memory. It says NOMEM, and changes nothing, only if there is no such run.
  pub alloc_lem :
      (lo hi : ℕ) (p : Policy)
      → lo + 4096 ≤ 2 ^ 44
      → hi < 2 ^ 44
      → AllocOutcome p pmm lo hi pages (alloc pmm lo hi pages p true)
  alloc_lem lo hi p lo_small hi_small =
      go p (alloc pmm lo hi pages p true) (alloc_fit v pages some_pages lo hi p)
    where
      go :
          (p : Policy) (r : Kerror × Option ℕ × Pmm)
          → Fit.AllocOutcome p pmm lo hi pages r
          → AllocOutcome p pmm lo hi pages r
      go strict (e, out, pmm') (inl g) =
          inl (to_Granted v lo hi lo_small hi_small some_pages e out pmm' g)
      go strict (e, out, pmm') (inr (denied, miss)) =
          inr (to_NoRun v lo hi lo_small hi_small some_pages miss, denied)
      go fallback (e, out, pmm') (inl g) =
          inl (to_Granted v lo hi lo_small hi_small some_pages e out pmm' g)
      go fallback (e, out, pmm') (inr (inl (miss, g))) = inr (
          inl (
            to_NoRun v lo hi lo_small hi_small some_pages miss,
            to_Granted v 0 0 (omega arith) (omega arith) some_pages e out pmm'
                (rw (whole.0, whole.1) g),
          ))
      go fallback (e, out, pmm') (inr (inr (miss, denied))) = inr (
          inr (
            to_NoRun v 0 0 (omega arith) (omega arith) some_pages (rw (whole.0, whole.1) miss),
            denied,
          ))
