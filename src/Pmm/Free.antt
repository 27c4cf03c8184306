-- ===== src/Pmm/Free.antt =====
-- `pmm_free` and `pmm_unreserve` in terms of addresses.
use it_works_os.Base.{ℕ, ◌+◌, ◌*◌, ◌/◌, ◌%◌, ◌^◌, ◌≤◌, ◌<◌, ◌≡◌, ◌≢◌, ◌⊎◌, inl, inr, false, arith}
use it_works_os.Kerror.{Kerror, ok, inval}
use it_works_os.Bitmap.Find.{AllSet}
use it_works_os.Pmm.{Pmm, addr_to_frame, unreserve, free}
use it_works_os.Pmm.Frames.{IsValid, Marks}
use it_works_os.Pmm.Guard.{FreeOutcome, free_by_frame, unreserve_by_frame}

-- A non-empty, aligned run of memory whose frames are all allocated.
pub record IsAllocatedRun (pmm : Pmm) (addr pages : ℕ) : Type 0 where
  pub some_pages : pages ≢ 0
  pub aligned : addr % 4096 ≡ 0
  pub in_memory : addr + 4096 * pages ≤ 4096 * pmm.total_frames
  pub taken : AllSet pmm.bm (addr / 4096) (addr / 4096 + pages)

-- What a freeing call has done: such a run is free, no other frame is changed, and the count is right.
pub record Freed (pmm pmm' : Pmm) (addr pages : ℕ) : Type 0 where
  pub run : IsAllocatedRun pmm addr pages
  pub marks : Marks pmm pmm' (addr / 4096) pages false
  pub count : pmm'.free_frames ≡ pmm.free_frames + pages
  pub valid : IsValid pmm'

abbrev pub ReleaseOutcome : Pmm → ℕ → ℕ → Kerror × Pmm → Type 0
ReleaseOutcome pmm addr pages (e, pmm') =
    ((e ≡ ok) × Freed pmm pmm' addr pages)
    ⊎ ((e ≡ inval) × (pmm' ≡ pmm) × (¬ IsAllocatedRun pmm addr pages))

module _ {pmm : Pmm} (v : IsValid pmm) (addr pages : ℕ) (small : addr < 2 ^ 44) where
  frame : addr_to_frame addr ≡ addr / 4096
  unfolding addr_to_frame
  frame = omega arith

  released : (r : Kerror × Pmm) → FreeOutcome pmm addr pages r → ReleaseOutcome pmm addr pages r
  released (e, pmm') (inl (e_ok, g)) = inl (
    e_ok,
    record {
      run = record {
        some_pages = g.run.some_pages;
        aligned = g.run.aligned;
        in_memory = omega (arith, g.run.fits, g.run.aligned, frame);
        taken = rw frame at g.taken;
      };
      marks = rw frame at g.marks;
      count = g.count;
      valid = g.valid;
    },
  )
  released (e, pmm') (inr (e_inval, same, refused)) = inr (
    e_inval,
    same,
    λ r. refused (
      record {
        some_pages = r.some_pages;
        aligned = r.aligned;
        fits = omega (arith, frame, r.in_memory, r.aligned);
      },
      rw frame r.taken,
    ),
  )

  -- `pmm_free` of an address below 2^44 frees the run, keeps the count of free frames and the
  -- invariant, if the run is not empty, aligned and in memory, and every frame of it is allocated; in
  -- every other case it refuses, and changes nothing.
  pub free_lem : ReleaseOutcome pmm addr pages (free pmm addr pages)
  free_lem = released _ (free_by_frame v addr pages)

  -- So does `pmm_unreserve`.
  pub unreserve_lem : ReleaseOutcome pmm addr pages (unreserve pmm addr pages)
  unreserve_lem = released _ (unreserve_by_frame v addr pages)
