-- ===== src/Conv/Bound.antt =====
-- How many bytes `conv_itoa` of kernel/klib/conv.c writes.
use native.Mathlib.Nat.{div-add-mod', lt_of_mul-lt-mul_right, pow-zero, pow-suc}
use it_works_os.Base.{
  ℕ, zero, suc, ◌+◌, ◌*◌, ◌/◌, ◌%◌, ◌^◌, ◌≤◌, ◌<◌, ◌≡◌, arith, true, ◌&&◌, Option, none, some, List,
  [], ◌∷◌, ◌++◌, length, length-append, if◌then◌else◌, ◌==◌, inl, inr, Bool-cases,
}
use it_works_os.Base.Int.{ℤ}
use it_works_os.Conv.{
  to_word, is_negative, negate, digit_char, prepend, extract, swap_ends, in_order, conv_itoa,
}
use it_works_os.Conv.Swap.{length-swap_ends}
use it_works_os.Conv.Digits.{read_back, word}

module _ (base : ℕ) where
  -- A number below base^k has at most k digits.
  abbrev AtMost : ℕ → Option (List ℕ) → Type 0
  AtMost k none = Unit
  AtMost k (some str) = length str ≤ k

  AtMost-prepend : (c k : ℕ) (o : Option (List ℕ)) → AtMost k o → AtMost (suc k) (prepend c o)
  AtMost-prepend c k none h = tt
  AtMost-prepend c k (some str) h = omega arith

  extract-AtMost : (fuel k n : ℕ) → n < base ^ k → AtMost k (extract fuel base n)
  unfolding extract
  extract-AtMost zero k n h = elim (Bool-cases (n == 0)) [
    | inl e ↦ rw e (omega arith)
    | inr e ↦ rw e tt
  ]
  extract-AtMost (suc fuel) zero n h =
      let e : (n == 0) ≡ true = ground (arith, pow-zero base) in rw e (omega arith)
  extract-AtMost (suc fuel) (suc k) n h = elim (Bool-cases (n == 0)) [
    | inl e ↦ rw e (omega arith)
    | inr e ↦
        let less : n / base * base < base ^ k * base =
          omega (arith, div-add-mod' n base, pow-suc base k) in
        rw e (
          AtMost-prepend (digit_char (n % base)) k _
            (extract-AtMost fuel k (n / base) (lt_of_mul-lt-mul_right base less)))
  ]

  AtMost-in_order :
      (sign : List ℕ) (k : ℕ) (o : Option (List ℕ))
      → AtMost k o
      → AtMost (length sign + k) (in_order sign o)
  AtMost-in_order sign k none h = tt
  AtMost-in_order sign k (some str) h = omega (
    arith,
    length-append sign (swap_ends (length str % 2 ^ 8) (length str % 2 ^ 8 / 2) 0 str),
    length-swap_ends (length str % 2 ^ 8) (length str % 2 ^ 8 / 2) 0 str,
  )

  written-AtMost :
      (sign : List ℕ) (k n : ℕ)
      → 1 ≤ k
      → n < base ^ k
      → AtMost
          (length sign + k)
          (if n == 0 then some (sign ++ (0x30 ∷ [])) else in_order sign (extract 32 base n))
  written-AtMost sign k n one h = elim (Bool-cases (n == 0)) [
    | inl e ↦ rw e (omega (arith, length-append sign (0x30 ∷ [])))
    | inr e ↦ rw e (AtMost-in_order sign k _ (extract-AtMost 32 k n h))
  ]

  at_most :
      (k : ℕ) (str : List ℕ) (o : Option (List ℕ)) → o ≡ some str → AtMost k o → length str ≤ k
  at_most k str o e h = rw e at h

-- `conv_itoa` in a base from 2 to 16 ends, and the string fits the buffer that kernel/include/klib/conv.h
-- asks for: at most `k` digits where base^k is 2^32 or more, and the sign in base 10.
pub conv_itoa_lem :
    (v : ℤ) (base k : ℕ)
    → 2 ≤ base
    → base ≤ 16
    → 1 ≤ k
    → 2 ^ 32 ≤ base ^ k
    → (str : List ℕ) × (conv_itoa v base ≡ some str)
      × (length str ≤ k + (if base == 10 then 1 else 0))
unfolding conv_itoa
conv_itoa_lem v base k low high one enough =
    let (str, made, _) = read_back base low high v in
    (
      str,
      made,
      elim (Bool-cases ((base == 10) && is_negative v)) [
        | inl e ↦
            let ten : (base == 10) ≡ true = ground arith in
            rw ten (
              omega (
                arith,
                at_most base (1 + k) str _ (rw e at made)
                    (written-AtMost base (0x2D ∷ []) k (negate (to_word v)) one (omega arith)),
              ))
        | inr e ↦ ground (
          arith,
          at_most base (0 + k) str _ (rw e at made)
              (written-AtMost base [] k (to_word v) one (omega (arith, word v))),
        )
      ],
    )
