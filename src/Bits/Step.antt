-- ===== src/Bits/Step.antt =====
-- `&` and `|` by their lowest digits. The library defines both by one recursion on the binary
-- digits of the first operand, with that operand itself as fuel.
use Prim.Native.Nat.{digits, bitwise, bit_and-bitwise, bit_or-bitwise}
use it_works_os.Base.{
  ℕ, zero, suc, ◌+◌, ◌*◌, ◌/◌, ◌%◌, ◌≤◌, min, max, bit_and, bit_or, ◌≡◌, refl, ◌∙◌, arith, inl, inr,
  ◌==◌, Bool-cases,
}

module _ (rest : ℕ → ℕ) (join : ℕ → ℕ → ℕ) where
  -- A round of fuel past the value of the operand changes nothing.
  spare_round :
      (fuel x y : ℕ) → x ≤ fuel → digits rest join (suc fuel) x y ≡ digits rest join fuel x y
  spare_round zero zero y enough = refl
  spare_round (suc fuel) zero y enough = refl
  spare_round zero (suc x) y enough = absurd (omega arith)
  spare_round (suc fuel) (suc x) y enough =
      omega (arith, spare_round fuel (suc x / 2) (y / 2) (omega arith))

  -- So any two sufficient amounts agree: go down from the larger, a round at a time.
  spare_fuel :
      (big small x y : ℕ)
      → x ≤ small
      → small ≤ big
      → digits rest join big x y ≡ digits rest join small x y
  spare_fuel zero small x y enough le = let e : small ≡ 0 = omega arith in rw e
  spare_fuel (suc big) small x y enough le = elim (Bool-cases (small == suc big)) [
    | inl same ↦ let e : small ≡ suc big = ground arith in rw e
    | inr less ↦ spare_round big x y (ground arith) ∙ spare_fuel big small x y enough (ground arith)
  ]

  lowest_digit :
      (x y : ℕ)
      → bitwise rest join (suc x) y
        ≡ bitwise rest join (suc x / 2) (y / 2) * 2 + join (suc x % 2) (y % 2)
  lowest_digit x y =
      omega (arith, spare_fuel x (suc x / 2) (suc x / 2) (y / 2) (omega arith) (omega arith))

pub bit_and_step : (x y : ℕ) → bit_and x y ≡ bit_and (x / 2) (y / 2) * 2 + min (x % 2) (y % 2)
bit_and_step zero y = rw (bit_and-bitwise, bit_and-bitwise) (omega arith)
bit_and_step (suc x) y = rw (bit_and-bitwise, bit_and-bitwise) (lowest_digit (λ _. 0) min x y)

pub bit_or_step : (x y : ℕ) → bit_or x y ≡ bit_or (x / 2) (y / 2) * 2 + max (x % 2) (y % 2)
bit_or_step zero y = rw (bit_or-bitwise, bit_or-bitwise) (omega arith)
bit_or_step (suc x) y = rw (bit_or-bitwise, bit_or-bitwise) (lowest_digit (λ t. t) max x y)
