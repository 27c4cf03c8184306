-- ===== src/Bitmap/Range/Count.antt =====
-- The number of clear bits, and how changing a run of bits moves it.
use native.Mathlib.Numerals.{add-one}
use it_works_os.Base.{
  ℕ, zero, suc, ◌+◌, ◌%◌, ◌^◌, ◌≤◌, ◌<◌, ◌≡◌, true, false, arith, if◌then◌else◌, ltb,
}
use it_works_os.Bitmap.{Bitmap, set, clear, test}
use it_works_os.Bitmap.Laws.{
  IsValid, test-set, test-clear, set-IsValid, clear-IsValid, nbits-set, nbits-clear,
}
use it_works_os.Bitmap.Find.{AllSet}
use it_works_os.Bitmap.Range.{set_range, clear_range, count_loop}
use it_works_os.Bitmap.Range.Change.{AllClear}

-- The clear bits below `n`.
unfoldable pub count_clear : Bitmap → ℕ → ℕ
count_clear bm zero = 0
count_clear bm (suc n) = count_clear bm n + (if test bm n then 0 else 1)

count_clear-suc :
    (bm : Bitmap) (n : ℕ) → count_clear bm (n + 1) ≡ count_clear bm n + (if test bm n then 0 else 1)
unfolding count_clear
count_clear-suc bm n = rw add-one

pub count_clear-le : (bm : Bitmap) (n : ℕ) → count_clear bm n ≤ n
unfolding count_clear
count_clear-le bm zero = omega arith
count_clear-le bm (suc n) = ground (arith, count_clear-le bm n)

-- The loop adds up the clear bits that it passes.
count_loop-add :
    (bm : Bitmap) (left i acc j : ℕ)
    → i + left ≡ j
    → acc + left < 2 ^ 32
    → count_loop bm left i acc + count_clear bm i ≡ acc + count_clear bm j
unfolding count_loop
count_loop-add bm zero i acc j e small = let e' : i ≡ j = omega arith in rw e'
count_loop-add bm (suc left) i acc j e small = ground (
  arith,
  count_clear-suc bm i,
  count_loop-add bm left (i + 1) (if test bm i then acc else (acc + 1) % 2 ^ 32) j,
)

pub count_loop_lem : (bm : Bitmap) (n : ℕ) → n < 2 ^ 32 → count_loop bm n 0 0 ≡ count_clear bm n
unfolding count_clear
count_loop_lem bm n h = omega (arith, count_loop-add bm n 0 0 n (omega arith) (omega arith))

count-set :
    {bm : Bitmap} (p N : ℕ)
    → IsValid bm
    → p < bm.nbits
    → test bm p ≡ false
    → count_clear (set bm p) N + (if ltb p N then 1 else 0) ≡ count_clear bm N
unfolding count_clear
count-set p zero v h e = ground arith
count-set p (suc N) v h e = ground (arith, count-set p N v h e, test-set p v h N)

count-clear :
    {bm : Bitmap} (p N : ℕ)
    → IsValid bm
    → p < bm.nbits
    → test bm p ≡ true
    → count_clear (clear bm p) N ≡ count_clear bm N + (if ltb p N then 1 else 0)
unfolding count_clear
count-clear p zero v h e = ground arith
count-clear p (suc N) v h e = ground (arith, count-clear p N v h e, test-clear p v h N)

-- Setting a run of clear bits takes them off the count.
pub count-set_range :
    {bm : Bitmap} (first n N : ℕ)
    → IsValid bm
    → first + n ≤ bm.nbits
    → first + n ≤ N
    → AllClear bm first (first + n)
    → count_clear (set_range bm first n) N + n ≡ count_clear bm N
unfolding set_range
count-set_range first zero N v h fits run = omega arith
count-set_range {bm} first (suc n) N v h fits run = ground (
  arith,
  count-set first N v (omega arith) (run first (omega arith) (omega arith)),
  count-set_range {bm = set bm first} (first + 1) n N (set-IsValid first v (omega arith))
      (omega (arith, nbits-set bm first)) (omega arith)
      (λ q ge lt.
        ground (arith, run q (omega arith) (omega arith), test-set first v (omega arith) q)),
)

-- Clearing a run of set bits adds them to the count.
pub count-clear_range :
    {bm : Bitmap} (first n N : ℕ)
    → IsValid bm
    → first + n ≤ bm.nbits
    → first + n ≤ N
    → AllSet bm first (first + n)
    → count_clear (clear_range bm first n) N ≡ count_clear bm N + n
unfolding clear_range
count-clear_range first zero N v h fits run = omega arith
count-clear_range {bm} first (suc n) N v h fits run = ground (
  arith,
  count-clear first N v (omega arith) (run first (omega arith) (omega arith)),
  count-clear_range {bm = clear bm first} (first + 1) n N (clear-IsValid first v (omega arith))
      (omega (arith, nbits-clear bm first)) (omega arith)
      (λ q ge lt.
        ground (arith, run q (omega arith) (omega arith), test-clear first v (omega arith) q)),
)
