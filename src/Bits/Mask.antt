-- ===== src/Bits/Mask.antt =====
-- `x & (2^k - 1)` is the remainder by 2^k.
use native.Mathlib.Nat.{pow-suc, div-add-mod'}
use it_works_os.Base.{ℕ, zero, suc, ◌+◌, ◌-◌, ◌*◌, ◌/◌, ◌%◌, ◌^◌, ◌<◌, ◌≡◌, arith, bit_and}
use it_works_os.Bits.Step.{bit_and_step}
use it_works_os.Bits.{bit-pos, bit_and-zero, mul_pow}

low_field : (k q r : ℕ) → r < 2 ^ k → bit_and (q * 2 ^ k + r) (2 ^ k - 1) ≡ r
low_field zero q r h = omega (arith, bit_and-zero (q * 2 ^ 0 + r))
low_field (suc k) q r h = ground (
  arith,
  bit_and_step (q * 2 ^ suc k + r) (2 ^ suc k - 1),
  mul_pow q k,
  pow-suc 2 k,
  bit-pos k,
  low_field k q (r / 2) (omega (arith, pow-suc 2 k)),
)

pub bit_and_mask : (k a : ℕ) → bit_and a (2 ^ k - 1) ≡ a % 2 ^ k
bit_and_mask k a =
    rw div-add-mod' at (low_field k (a / 2 ^ k) (a % 2 ^ k) (omega (arith, bit-pos k)))
