-- ===== src/Bitmap/Find.antt =====
-- `bitmap_find_zero` finds the first clear bit.
use it_works_os.Base.{
  ℕ, zero, suc, ◌+◌, ◌-◌, ◌*◌, ◌/◌, ◌%◌, ◌^◌, ◌≤◌, ◌<◌, ◌≡◌, inl, inr, true, false, Option, none,
  some, arith, ◌↔◌, ap, Bool-cases, ◌==◌, leb,
}
use it_works_os.Bits.{
  bit, complement, digit, digit-lt, mask_test, mask_test-bit, digit-complement, digit-zero,
}
use it_works_os.Bitmap.{Bitmap, word, elems, test, find_bit, find_word, find_zero}
use it_works_os.Bitmap.Laws.{IsValid}

-- Every bit from `lo` up to `hi` is set.
abbrev pub AllSet : Bitmap → ℕ → ℕ → Type 0
AllSet bm lo hi = (q : ℕ) → lo ≤ q → q < hi → test bm q ≡ true

-- The answer of a search from bit `lo` on: the first clear bit below `nbits`, if there is one.
abbrev pub IsFirstClear : Bitmap → ℕ → Option ℕ → Type 0
IsFirstClear bm lo none = AllSet bm lo bm.nbits
IsFirstClear bm lo (some p) = (lo ≤ p) × (p < bm.nbits) × (test bm p ≡ false) × AllSet bm lo p

-- What the inner loop says of word `i`.
abbrev WordOutcome : Bitmap → ℕ → Option (Option ℕ) → Type 0
WordOutcome bm i none = AllSet bm (i * 32) (i * 32 + 32)
WordOutcome bm i (some r) = IsFirstClear bm (i * 32) r

module _ {bm : Bitmap} (v : IsValid bm) where
  test-word : (i b : ℕ) → b < 32 → test bm (i * 32 + b) ≡ (digit (word bm i) b == 1)
  unfolding test
  test-word i b h =
      let e : (i * 32 + b) / 32 ≡ i = omega arith in
      let f : (i * 32 + b) % 32 ≡ b = omega arith in rw (e, f) (mask_test-bit (word bm i) b)

  -- In the complement of a word the one bits are the clear ones.
  free-test :
      (i b : ℕ)
      → b < 32
      → (mask_test (complement 32 (word bm i)) (bit b) ≡ true) ↔ (test bm (i * 32 + b) ≡ false)
  free-test i b h = ground (
    arith,
    test-word i b h,
    mask_test-bit (complement 32 (word bm i)) b,
    digit-complement 32 (word bm i) b (v.words_fit i) h,
    digit-lt (word bm i) b,
  )

  AllSet-suc : (lo hi : ℕ) → AllSet bm lo hi → test bm hi ≡ true → AllSet bm lo (hi + 1)
  AllSet-suc lo hi h e q ge lt = elim (Bool-cases (q == hi)) [
    | inl eq ↦ let e' : q ≡ hi = ground arith in rw e' e
    | inr ne ↦ h q ge (ground arith)
  ]

  find_bit-WordOutcome :
      (i left b : ℕ)
      → b + left ≡ 32
      → AllSet bm (i * 32) (i * 32 + b)
      → WordOutcome bm i (find_bit bm.nbits i (complement 32 (word bm i)) left b)
  unfolding find_bit
  find_bit-WordOutcome i zero b e h = λ q ge lt. h q ge (omega arith)
  find_bit-WordOutcome i (suc left) b e h =
      elim (Bool-cases (mask_test (complement 32 (word bm i)) (bit b))) [
        | inl hit ↦ elim (Bool-cases (leb bm.nbits (i * 32 + b))) [
          | inl out ↦ rw (hit, out) (λ q ge lt. h q ge (ground arith))
          | inr within ↦
              rw (hit, within) (omega arith, ground arith, (free-test i b (omega arith)).0 hit, h)
        ]
        | inr miss ↦ rw miss (
            find_bit-WordOutcome i left (b + 1) (omega arith) (λ q ge lt.
              AllSet-suc (i * 32) (i * 32 + b) h (ground (arith, free-test i b)) q ge
                (omega arith)))
      ]

  full_digit : (w b : ℕ) → w < 2 ^ 32 → b < 32 → complement 32 w ≡ 0 → digit w b ≡ 1
  full_digit w b hw hb z = omega (
    arith,
    digit-zero b,
    digit-lt w b,
    ap (λ (t : ℕ). digit t b) z,
    digit-complement 32 w b hw hb,
  )

  full_word : (i : ℕ) → (complement 32 (word bm i) == 0) ≡ true → AllSet bm (i * 32) (i * 32 + 32)
  full_word i full q ge lt =
      let split : q ≡ i * 32 + (q - i * 32) = omega arith in
      rw split (
        ground
          (arith, test-word i (q - i * 32), full_digit (word bm i) (q - i * 32) (v.words_fit i)))

  -- A verdict from word `i` on, with the words before it full.
  from_start :
      (i : ℕ) (r : Option ℕ)
      → AllSet bm 0 (i * 32)
      → IsFirstClear bm (i * 32) r
      → IsFirstClear bm 0 r
  from_start i none before h = λ q ge lt. elim (Bool-cases (leb (i * 32) q)) [
    | inl from ↦ h q (ground arith) lt
    | inr to ↦ before q ge (ground arith)
  ]
  from_start i (some p) before (lo, lt, clear, h) = (omega arith, lt, clear, all)
    where
      all : AllSet bm 0 p
      all q ge lt' = elim (Bool-cases (leb (i * 32) q)) [
        | inl from ↦ h q (ground arith) lt'
        | inr to ↦ before q ge (ground arith)
      ]

  next_word :
      (i : ℕ) → AllSet bm 0 (i * 32) → AllSet bm (i * 32) (i * 32 + 32) → AllSet bm 0 ((i + 1) * 32)
  next_word i before h q ge lt = elim (Bool-cases (leb (i * 32) q)) [
    | inl from ↦ h q (ground arith) (omega arith)
    | inr to ↦ before q ge (ground arith)
  ]

  by_outcome :
      (left i : ℕ) (o : Option (Option ℕ))
      → AllSet bm 0 (i * 32)
      → WordOutcome bm i o
      → (AllSet bm 0 ((i + 1) * 32) → IsFirstClear bm 0 (find_word bm left (i + 1)))
      → IsFirstClear bm 0 (elim o [ some r ↦ r | none ↦ find_word bm left (i + 1) ])
  by_outcome left i none before w go = go (next_word i before w)
  by_outcome left i (some r) before w go = from_start i r before w

  find_word-IsFirstClear :
      (left i : ℕ)
      → i + left ≡ elems bm.nbits
      → AllSet bm 0 (i * 32)
      → IsFirstClear bm 0 (find_word bm left i)
  unfolding find_word
  find_word-IsFirstClear zero i e h = λ q ge lt. h q ge (omega (arith, v.small))
  find_word-IsFirstClear (suc left) i e h = elim (Bool-cases (complement 32 (word bm i) == 0)) [
    | inl full ↦
        rw full
          (find_word-IsFirstClear left (i + 1) (omega arith) (next_word i h (full_word i full)))
    | inr room ↦ rw room (
        by_outcome left i _ h
          (find_bit-WordOutcome i 32 0 (omega arith) (λ q ge lt. absurd (omega arith)))
          (find_word-IsFirstClear left (i + 1) (omega arith)))
  ]

-- `bitmap_find_zero` returns the lowest clear bit below `nbits`, and false exactly when every
-- bit below `nbits` is set.
pub find_zero-IsFirstClear : {bm : Bitmap} → IsValid bm → IsFirstClear bm 0 (find_zero bm)
unfolding find_zero
find_zero-IsFirstClear {bm} v =
    find_word-IsFirstClear v (elems bm.nbits) 0 (omega arith) (λ q ge lt. absurd (omega arith))
