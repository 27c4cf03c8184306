-- ===== src/Pmm/Guard.antt =====
-- The argument checks that `pmm_free`, `pmm_unreserve` and `pmm_reserve` share, by frame numbers.
use it_works_os.Base.{
  ℕ, ◌+◌, ◌%◌, ◌≤◌, ◌≡◌, ◌≢◌, ◌⊎◌, refl, inl, inr, Bool, true, false, arith, if◌then◌else◌, ◌==◌,
  Bool-cases, not, ◌↔◌,
}
use it_works_os.Bits.Align.{align_test}
use it_works_os.Kerror.{Kerror, ok, inval, busy, is_err}
use it_works_os.Bitmap.Find.{AllSet}
use it_works_os.Bitmap.Range.{all_set, all_clear}
use it_works_os.Bitmap.Range.Change.{
  AllClear, all_set-AllSet, AllSet-all_set, all_clear-AllClear, AllClear-all_clear,
}
use it_works_os.Pmm.{
  Pmm, frame_size, addr_to_frame, validate_range, take_frames, give_frames, reserve, unreserve,
  free,
}
use it_works_os.Pmm.Frames.{
  IsValid, Marks, take_frames-Marks, give_frames-Marks, take_frames-IsValid, give_frames-IsValid,
}

-- A non-empty, aligned run of frames that the manager has.
pub record IsRun (pmm : Pmm) (addr pages : ℕ) : Type 0 where
  pub some_pages : pages ≢ 0
  pub aligned : addr % frame_size ≡ 0
  pub fits : addr_to_frame addr + pages ≤ pmm.total_frames

-- All of its frames are allocated, or all are free.
abbrev pub IsTaken : Pmm → ℕ → ℕ → Type 0
IsTaken pmm addr pages = AllSet pmm.bm (addr_to_frame addr) (addr_to_frame addr + pages)

abbrev pub IsUntaken : Pmm → ℕ → ℕ → Type 0
IsUntaken pmm addr pages = AllClear pmm.bm (addr_to_frame addr) (addr_to_frame addr + pages)

module _ (pmm : Pmm) (addr pages : ℕ) where
  abbrev first : ℕ
  first = addr_to_frame addr

  valid_iff :
      pages ≢ 0
      → (is_err (validate_range pmm first pages) ≡ false) ↔ (first + pages ≤ pmm.total_frames)
  unfolding validate_range
  valid_iff h = ground arith

  -- The three argument checks that the functions share, and one more test.
  guard : {A : Type 0} → Bool → A → A → A → A
  guard t bad refused good =
      if pages == 0
      then bad
      else if not (align_test addr frame_size)
      then bad
      else if is_err (validate_range pmm first pages)
      then bad
      else if not t
      then refused
      else good

  guard_cases :
      {A : Type 0} (t : Bool) (bad refused good : A)
      → (IsRun pmm addr pages × (t ≡ true) × (guard t bad refused good ≡ good))
        ⊎ (IsRun pmm addr pages × (t ≡ false) × (guard t bad refused good ≡ refused))
        ⊎ ((¬ IsRun pmm addr pages) × (guard t bad refused good ≡ bad))
  unfolding guard
  guard_cases t bad refused good = elim (Bool-cases (pages == 0)) [
    | inl none ↦ inr (inr (λ r. r.some_pages (ground arith), rw none))
    | inr some ↦ elim (Bool-cases (align_test addr frame_size)) [
      | inr odd ↦ inr (inr (λ r. ground (arith, r.aligned), rw (some, odd)))
      | inl even ↦ elim (Bool-cases (is_err (validate_range pmm first pages))) [
        | inl out ↦
            inr (inr (λ r. ground (arith, valid_iff r.some_pages, r.fits), rw (some, even, out)))
        | inr fits ↦
            let r : IsRun pmm addr pages = record {
              some_pages = ground arith;
              aligned = ground arith;
              fits = (valid_iff (ground arith)).0 fits;
            } in
            elim (Bool-cases t) [
              | inl e ↦ inl (r, e, rw (some, even, fits, e))
              | inr e ↦ inr (inl (r, e, rw (some, even, fits, e)))
            ]
      ]
    ]
  ]

-- What a call that gives `pages` frames back has done.
pub record Gave (pmm pmm' : Pmm) (addr pages : ℕ) : Type 0 where
  pub run : IsRun pmm addr pages
  pub taken : IsTaken pmm addr pages
  pub marks : Marks pmm pmm' (addr_to_frame addr) pages false
  pub count : pmm'.free_frames ≡ pmm.free_frames + pages
  pub valid : IsValid pmm'

-- What a call that takes them has done.
pub record Took (pmm pmm' : Pmm) (addr pages : ℕ) : Type 0 where
  pub run : IsRun pmm addr pages
  pub untaken : IsUntaken pmm addr pages
  pub marks : Marks pmm pmm' (addr_to_frame addr) pages true
  pub count : pmm'.free_frames + pages ≡ pmm.free_frames
  pub valid : IsValid pmm'

-- A freeing call either frees an allocated run, or refuses and changes nothing.
abbrev pub FreeOutcome : Pmm → ℕ → ℕ → Kerror × Pmm → Type 0
FreeOutcome pmm addr pages (e, pmm') =
    ((e ≡ ok) × Gave pmm pmm' addr pages)
    ⊎ ((e ≡ inval) × (pmm' ≡ pmm) × (¬ (IsRun pmm addr pages × IsTaken pmm addr pages)))

abbrev pub ReserveOutcome : Pmm → ℕ → ℕ → Kerror × Pmm → Type 0
ReserveOutcome pmm addr pages (e, pmm') =
    ((e ≡ ok) × Took pmm pmm' addr pages)
    ⊎ ((e ≡ busy) × (pmm' ≡ pmm) × IsRun pmm addr pages × (¬ IsUntaken pmm addr pages))
    ⊎ ((e ≡ inval) × (pmm' ≡ pmm) × (¬ IsRun pmm addr pages))

module _ {pmm : Pmm} (v : IsValid pmm) (addr pages : ℕ) where
  gave :
      IsRun pmm addr pages
      → IsTaken pmm addr pages
      → Gave pmm (give_frames pmm (addr_to_frame addr) pages) addr pages
  gave r t =
      let g = give_frames-IsValid v (addr_to_frame addr) pages r.fits t in
      record {
        run = r;
        taken = t;
        marks = give_frames-Marks v (addr_to_frame addr) pages r.fits;
        count = g.1;
        valid = g.0;
      }

  took :
      IsRun pmm addr pages
      → IsUntaken pmm addr pages
      → Took pmm (take_frames pmm (addr_to_frame addr) pages) addr pages
  took r t =
      let g = take_frames-IsValid v (addr_to_frame addr) pages r.fits t in
      record {
        run = r;
        untaken = t;
        marks = take_frames-Marks v (addr_to_frame addr) pages r.fits;
        count = g.1;
        valid = g.0;
      }

  freed : FreeOutcome pmm addr pages (
      guard pmm addr pages
        (all_set pmm.bm (addr_to_frame addr) pages)
        (inval, pmm)
        (inval, pmm)
        (ok, give_frames pmm (addr_to_frame addr) pages))
  freed =
      elim (guard_cases pmm addr pages {A = Kerror × Pmm}
        (all_set pmm.bm (addr_to_frame addr) pages) (inval, pmm) (inval, pmm)
        (ok, give_frames pmm (addr_to_frame addr) pages)) [
          | inl (r, t, e) ↦
              rw e (inl (refl, gave r (all_set-AllSet pmm.bm (addr_to_frame addr) pages t)))
          | inr (inl (r, t, e)) ↦ rw e (
              inr (
                refl,
                refl,
                λ (_, s). ground (arith, AllSet-all_set pmm.bm (addr_to_frame addr) pages s),
              ))
          | inr (inr (n, e)) ↦ rw e (inr (refl, refl, λ (r, _). n r))
        ]

  pub free_by_frame : FreeOutcome pmm addr pages (free pmm addr pages)
  unfolding free guard
  free_by_frame = freed

  pub unreserve_by_frame : FreeOutcome pmm addr pages (unreserve pmm addr pages)
  unfolding unreserve guard
  unreserve_by_frame = freed

  -- `pmm_reserve` takes the run if every frame of it is free; it says busy of a run in memory with
  -- an allocated frame, and refuses anything else, and changes nothing then.
  pub reserve_lem : ReserveOutcome pmm addr pages (reserve pmm addr pages)
  unfolding reserve guard
  reserve_lem =
      elim (guard_cases pmm addr pages {A = Kerror × Pmm}
        (all_clear pmm.bm (addr_to_frame addr) pages) (inval, pmm) (busy, pmm)
        (ok, take_frames pmm (addr_to_frame addr) pages)) [
          | inl (r, t, e) ↦
              rw e (inl (refl, took r (all_clear-AllClear pmm.bm (addr_to_frame addr) pages t)))
          | inr (inl (r, t, e)) ↦ rw e (
              inr (
                inl (
                  refl,
                  refl,
                  r,
                  λ s. ground (arith, AllClear-all_clear pmm.bm (addr_to_frame addr) pages s),
                )))
          | inr (inr (n, e)) ↦ rw e (inr (inr (refl, refl, n)))
        ]
