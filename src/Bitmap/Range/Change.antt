-- ===== src/Bitmap/Range/Change.antt =====
-- What setting, clearing and testing a run of bits does.
use it_works_os.Base.{
  ℕ, zero, suc, ◌+◌, ◌≤◌, ◌<◌, ◌≡◌, refl, inl, inr, Bool, true, false, arith, Bool-cases,
  if◌then◌else◌, ◌==◌, leb, ltb, ◌&&◌,
}
use it_works_os.Bitmap.{Bitmap, set, clear, test}
use it_works_os.Bitmap.Laws.{
  IsValid, test-set, test-clear, set-IsValid, clear-IsValid, nbits-set, nbits-clear,
}
use it_works_os.Bitmap.Find.{AllSet}
use it_works_os.Bitmap.Range.{set_range, clear_range, all_set, all_clear}

-- Every bit from `lo` up to `hi` is clear.
abbrev pub AllClear : Bitmap → ℕ → ℕ → Type 0
AllClear bm lo hi = (q : ℕ) → lo ≤ q → q < hi → test bm q ≡ false

abbrev pub within : ℕ → ℕ → ℕ → Bool
within lo n q = leb lo q && ltb q (lo + n)

pub nbits-set_range : (bm : Bitmap) (first n : ℕ) → (set_range bm first n).nbits ≡ bm.nbits
unfolding set_range
nbits-set_range bm first zero = refl
nbits-set_range bm first (suc n) =
    omega (arith, nbits-set_range (set bm first) (first + 1) n, nbits-set bm first)

pub nbits-clear_range : (bm : Bitmap) (first n : ℕ) → (clear_range bm first n).nbits ≡ bm.nbits
unfolding clear_range
nbits-clear_range bm first zero = refl
nbits-clear_range bm first (suc n) =
    omega (arith, nbits-clear_range (clear bm first) (first + 1) n, nbits-clear bm first)

pub set_range-IsValid :
    {bm : Bitmap} (first n : ℕ) → IsValid bm → first + n ≤ bm.nbits → IsValid (set_range bm first n)
unfolding set_range
set_range-IsValid first zero v h = v
set_range-IsValid {bm} first (suc n) v h =
    set_range-IsValid {bm = set bm first} (first + 1) n (set-IsValid first v (omega arith))
      (omega (arith, nbits-set bm first))

pub clear_range-IsValid :
    {bm : Bitmap} (first n : ℕ)
    → IsValid bm
    → first + n ≤ bm.nbits
    → IsValid (clear_range bm first n)
unfolding clear_range
clear_range-IsValid first zero v h = v
clear_range-IsValid {bm} first (suc n) v h =
    clear_range-IsValid {bm = clear bm first} (first + 1) n (clear-IsValid first v (omega arith))
      (omega (arith, nbits-clear bm first))

pub test-set_range :
    {bm : Bitmap} (first n q : ℕ)
    → IsValid bm
    → first + n ≤ bm.nbits
    → test (set_range bm first n) q ≡ (if within first n q then true else test bm q)
unfolding set_range
test-set_range first zero q v h = ground arith
test-set_range {bm} first (suc n) q v h = ground (
  arith,
  test-set_range {bm = set bm first} (first + 1) n q (set-IsValid first v (omega arith)),
  test-set first v (omega arith) q,
  nbits-set bm first,
)

pub test-clear_range :
    {bm : Bitmap} (first n q : ℕ)
    → IsValid bm
    → first + n ≤ bm.nbits
    → test (clear_range bm first n) q ≡ (if within first n q then false else test bm q)
unfolding clear_range
test-clear_range first zero q v h = ground arith
test-clear_range {bm} first (suc n) q v h = ground (
  arith,
  test-clear_range {bm = clear bm first} (first + 1) n q (clear-IsValid first v (omega arith)),
  test-clear first v (omega arith) q,
  nbits-clear bm first,
)

-- The next three pairs: the early-return loops decide whether all bits of a run agree.
AllSet-cons :
    (bm : Bitmap) (first n : ℕ)
    → test bm first ≡ true
    → AllSet bm (first + 1) (first + 1 + n)
    → AllSet bm first (first + suc n)
AllSet-cons bm first n e h q ge lt = elim (Bool-cases (q == first)) [
  | inl eq ↦ let e' : q ≡ first = ground arith in rw e' e
  | inr ne ↦ h q (ground arith) (omega arith)
]

pub all_set-AllSet :
    (bm : Bitmap) (first n : ℕ) → all_set bm first n ≡ true → AllSet bm first (first + n)
unfolding all_set
all_set-AllSet bm first zero h = λ q ge lt. absurd (omega arith)
all_set-AllSet bm first (suc n) h = elim (Bool-cases (test bm first)) [
  | inl e ↦ AllSet-cons bm first n e (all_set-AllSet bm (first + 1) n (ground arith))
  | inr e ↦ absurd (ground arith)
]

pub AllSet-all_set :
    (bm : Bitmap) (first n : ℕ) → AllSet bm first (first + n) → all_set bm first n ≡ true
unfolding all_set
AllSet-all_set bm first zero h = refl
AllSet-all_set bm first (suc n) h =
    rw (h first (omega arith) (omega arith), all_set)
      (AllSet-all_set bm (first + 1) n (λ q ge lt. h q (omega arith) (omega arith)))

AllClear-cons :
    (bm : Bitmap) (first n : ℕ)
    → test bm first ≡ false
    → AllClear bm (first + 1) (first + 1 + n)
    → AllClear bm first (first + suc n)
AllClear-cons bm first n e h q ge lt = elim (Bool-cases (q == first)) [
  | inl eq ↦ let e' : q ≡ first = ground arith in rw e' e
  | inr ne ↦ h q (ground arith) (omega arith)
]

pub all_clear-AllClear :
    (bm : Bitmap) (first n : ℕ) → all_clear bm first n ≡ true → AllClear bm first (first + n)
unfolding all_clear
all_clear-AllClear bm first zero h = λ q ge lt. absurd (omega arith)
all_clear-AllClear bm first (suc n) h = elim (Bool-cases (test bm first)) [
  | inl e ↦ absurd (ground arith)
  | inr e ↦ AllClear-cons bm first n e (all_clear-AllClear bm (first + 1) n (ground arith))
]

pub AllClear-all_clear :
    (bm : Bitmap) (first n : ℕ) → AllClear bm first (first + n) → all_clear bm first n ≡ true
unfolding all_clear
AllClear-all_clear bm first zero h = refl
AllClear-all_clear bm first (suc n) h =
    rw (h first (omega arith) (omega arith), all_clear)
      (AllClear-all_clear bm (first + 1) n (λ q ge lt. h q (omega arith) (omega arith)))
