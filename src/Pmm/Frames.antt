-- ===== src/Pmm/Frames.antt =====
-- The invariant of the physical memory manager, and what marking a run of frames does to it.
use it_works_os.Base.{ℕ, ◌+◌, ◌^◌, ◌≤◌, ◌<◌, ◌≡◌, refl, Bool, true, false, arith, if◌then◌else◌}
use it_works_os.Bitmap.{test}
use it_works_os.Bitmap.Laws
use it_works_os.Bitmap.Find.{AllSet}
use it_works_os.Bitmap.Range.{clear_range}
use it_works_os.Bitmap.Range.Change.{
  AllClear, within, nbits-set_range, nbits-clear_range, set_range-IsValid, clear_range-IsValid,
  test-set_range, test-clear_range,
}
use it_works_os.Bitmap.Range.Count.{count_clear, count_clear-le, count-set_range, count-clear_range}
use it_works_os.Pmm.{Pmm, take_frames, give_frames}

-- The bitmap has a bit for each frame, and `free_frames` counts the clear ones.
pub record IsValid (pmm : Pmm) : Type 0 where
  pub bitmap : Laws.IsValid pmm.bm
  pub frames : pmm.bm.nbits ≡ pmm.total_frames
  pub counted : pmm.free_frames ≡ count_clear pmm.bm pmm.total_frames

-- Frame `q` can be allocated.
abbrev pub IsFree : Pmm → ℕ → Type 0
IsFree pmm q = test pmm.bm q ≡ false

-- `new` is `old` with `n` frames from `first` on marked by `b`.
pub record Marks (old new : Pmm) (first n : ℕ) (b : Bool) : Type 0 where
  pub marked : (q : ℕ) → test new.bm q ≡ (if within first n q then b else test old.bm q)
  pub same_total : new.total_frames ≡ old.total_frames

module _ {pmm : Pmm} (v : IsValid pmm) (first n : ℕ) (fits : first + n ≤ pmm.total_frames) where
  fits_bits : first + n ≤ pmm.bm.nbits
  fits_bits = omega (arith, v.frames)

  pub take_frames-Marks : Marks pmm (take_frames pmm first n) first n true
  unfolding take_frames
  take_frames-Marks = record {
    marked = λ q. test-set_range first n q v.bitmap fits_bits;
    same_total = refl;
  }

  pub give_frames-Marks : Marks pmm (give_frames pmm first n) first n false
  unfolding give_frames
  give_frames-Marks = record {
    marked = λ q. test-clear_range first n q v.bitmap fits_bits;
    same_total = refl;
  }

  pub small : pmm.total_frames < 2 ^ 32
  small = omega (arith, v.frames, v.bitmap.small)

  pub take_frames-IsValid :
      AllClear pmm.bm first (first + n)
      → IsValid (take_frames pmm first n)
        × ((take_frames pmm first n).free_frames + n ≡ pmm.free_frames)
  unfolding take_frames
  take_frames-IsValid run =
      let c = count-set_range first n pmm.total_frames v.bitmap fits_bits fits run in
      (
        record {
          bitmap = set_range-IsValid first n v.bitmap fits_bits;
          frames = omega (arith, nbits-set_range pmm.bm first n, v.frames);
          counted = omega (arith, c, v.counted, small, count_clear-le pmm.bm pmm.total_frames);
        },
        omega (arith, c, v.counted, small, count_clear-le pmm.bm pmm.total_frames),
      )

  pub give_frames-IsValid :
      AllSet pmm.bm first (first + n)
      → IsValid (give_frames pmm first n)
        × ((give_frames pmm first n).free_frames ≡ pmm.free_frames + n)
  unfolding give_frames
  give_frames-IsValid run =
      let c = count-clear_range first n pmm.total_frames v.bitmap fits_bits fits run in
      (
        record {
          bitmap = clear_range-IsValid first n v.bitmap fits_bits;
          frames = omega (arith, nbits-clear_range pmm.bm first n, v.frames);
          counted = omega (
            arith,
            c,
            v.counted,
            small,
            count_clear-le (clear_range pmm.bm first n) pmm.total_frames,
          );
        },
        omega (
          arith,
          c,
          v.counted,
          small,
          count_clear-le (clear_range pmm.bm first n) pmm.total_frames,
        ),
      )
