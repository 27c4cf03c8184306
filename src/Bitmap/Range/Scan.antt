-- ===== src/Bitmap/Range/Scan.antt =====
-- The search for a run of clear bits is a complete first fit.
use it_works_os.Base.{
  ℕ, zero, suc, ◌+◌, ◌-◌, ◌%◌, ◌^◌, ◌≤◌, ◌<◌, ◌≡◌, refl, inl, inr, true, false, Option, none, some,
  arith, Bool-cases, ◌==◌, ltb,
}
use it_works_os.Bitmap.{Bitmap, test}
use it_works_os.Bitmap.Range.{scan}
use it_works_os.Bitmap.Range.Change.{AllClear}

-- The answer of a search for `n` clear bits inside [lo, hi).
abbrev pub IsFirstFit : Bitmap → ℕ → ℕ → ℕ → Option ℕ → Type 0
IsFirstFit bm n lo hi none = (g : ℕ) → lo ≤ g → g + n ≤ hi → ¬ AllClear bm g (g + n)
IsFirstFit bm n lo hi (some f) =
    (lo ≤ f)
    × (f + n ≤ hi)
    × AllClear bm f (f + n)
    × ((g : ℕ) → lo ≤ g → g < f → ¬ AllClear bm g (g + n))

module _ (bm : Bitmap) (n lo hi : ℕ) where
  -- No run starts before bit `s`.
  abbrev NoneBefore : ℕ → Type 0
  NoneBefore s = (g : ℕ) → lo ≤ g → g < s → ¬ AllClear bm g (g + n)

  -- A set bit at `i` rules out every start from which a run would reach over it.
  NoneBefore-set :
      (i c : ℕ) → c < n → c ≤ i → test bm i ≡ true → NoneBefore (i - c) → NoneBefore (i + 1)
  NoneBefore-set i c hc hi' e before g ge lt run = elim (Bool-cases (ltb g (i - c))) [
    | inl old ↦ before g ge (ground arith) run
    | inr new ↦ ground (arith, run i (ground arith) (ground arith))
  ]

  scan-IsFirstFit :
      (left i c : ℕ)
      → i + left ≡ hi
      → hi < 2 ^ 32
      → 0 < n
      → c < n
      → c ≤ i
      → lo ≤ i - c
      → AllClear bm (i - c) i
      → NoneBefore (i - c)
      → IsFirstFit bm n lo hi (scan bm n left i c)
  unfolding scan
  scan-IsFirstFit zero i c e small pos hc ci low run before = λ g ge fits. before g ge (omega arith)
  scan-IsFirstFit (suc left) i c e small pos hc ci low run before = elim (Bool-cases (test bm i)) [
    | inl taken ↦ rw taken (
        scan-IsFirstFit left (i + 1) 0 (omega arith) small pos pos (omega arith) (omega arith)
          (λ q ge lt. absurd (omega arith))
          (λ g ge lt. NoneBefore-set i c hc ci taken before g ge (omega arith)))
    | inr free ↦ elim (Bool-cases ((c + 1) % 2 ^ 32 == n)) [
      | inl full ↦
          let start : (i + 2 ^ 32 - n + 1) % 2 ^ 32 ≡ i - c = ground arith in
          let end : i - c + n ≡ i + 1 = ground arith in
          rw (free, full, start)
            (omega arith, omega arith, λ q ge lt. extended free q ge (omega arith), before)
      | inr more ↦
          rw (free, more, narrow)
            (scan-IsFirstFit left (i + 1) (c + 1) (omega arith) small pos (ground arith)
              (omega arith) (omega arith) (λ q ge lt. extended free q (omega arith) lt)
              (λ g ge lt. before g ge (omega arith)))
    ]
  ]
    where
      narrow : (c + 1) % 2 ^ 32 ≡ c + 1
      narrow = omega arith

      extended : test bm i ≡ false → AllClear bm (i - c) (i + 1)
      extended free q ge lt = elim (Bool-cases (q == i)) [
        | inl eq ↦ let e' : q ≡ i = ground arith in rw e' free
        | inr ne ↦ run q ge (ground arith)
      ]

-- Started with no bit counted, the search returns the first run of `n` clear bits inside
-- [lo, lo + left), and none exactly when there is no such run.
pub scan_lem :
    (bm : Bitmap) (n lo left : ℕ)
    → 0 < n
    → lo + left < 2 ^ 32
    → IsFirstFit bm n lo (lo + left) (scan bm n left lo 0)
scan_lem bm n lo left pos small =
    scan-IsFirstFit bm n lo (lo + left) left lo 0 refl small pos pos (omega arith) (omega arith)
      (λ q ge lt. absurd (omega arith)) (λ g ge lt. absurd (omega arith))
