-- ===== src/Bits/Page.antt =====
-- Fields of a page-table entry: the address of a page in its high bits, flags in its low ones.
use native.Mathlib.Nat.{pow-suc}
use it_works_os.Base.{
  ℕ, zero, suc, ◌+◌, ◌*◌, ◌/◌, ◌%◌, ◌^◌, ◌≤◌, ◌<◌, ◌≡◌, refl, arith, bit_and, bit_or, ◌==◌,
}
use it_works_os.Bits.Step.{bit_or_step}
use it_works_os.Bits.Align.{bit_and_high}
use it_works_os.Bits.{bit, mask_test, digit, mask_test-bit, bit-pos, mul_pow}

-- By induction on a bound of the word, since each step halves it.
zero_below : (bound a : ℕ) → a ≤ bound → bit_or a 0 ≡ a
zero_below zero a small = let e : a ≡ 0 = omega arith in rw e refl
zero_below (suc bound) zero small = refl
zero_below (suc bound) (suc a) small =
    omega (arith, bit_or_step (suc a) 0, zero_below bound (suc a / 2) (omega arith))

-- The bits below 2^k of a multiple of it are free for a number below it.
pub bit_or_field : (k q r : ℕ) → r < 2 ^ k → bit_or (q * 2 ^ k) r ≡ q * 2 ^ k + r
bit_or_field zero q r h =
    let e : r ≡ 0 = omega arith in rw e (omega (arith, zero_below (q * 1) (q * 1) (omega arith)))
bit_or_field (suc k) q r h = ground (
  arith,
  bit_or_step (q * 2 ^ suc k) r,
  mul_pow q k,
  pow-suc 2 k,
  bit-pos k,
  bit_or_field k q (r / 2) (omega (arith, pow-suc 2 k)),
)

pub bit_or_page : (x r : ℕ) → x % 4096 ≡ 0 → r < 4096 → bit_or x r ≡ x + r
bit_or_page x r hx hr =
    let e : x / 4096 * 2 ^ 12 ≡ x = omega arith in rw e at (bit_or_field 12 (x / 4096) r hr)

pub bit_and_page : (x : ℕ) → x < 2 ^ 32 → bit_and x 0xFFFFF000 ≡ x / 4096 * 4096
bit_and_page x h =
    let e : x / 4096 * 2 ^ 12 + x % 4096 ≡ x = omega arith in
    rw e at (bit_and_high 12 32 (x / 4096) (x % 4096) (omega arith) (omega arith) (omega arith))

pub mask_test-bit_0 : (w : ℕ) → mask_test w (bit 0) ≡ (w % 2 == 1)
unfolding digit
mask_test-bit_0 w = mask_test-bit w 0

pub mask_test-bit_7 : (w : ℕ) → mask_test w (bit 7) ≡ (w / 128 % 2 == 1)
unfolding digit
mask_test-bit_7 w = ground (arith, mask_test-bit w 7)

zero_or : (bound a : ℕ) → a ≤ bound → bit_or 0 a ≡ a
zero_or zero a small = let e : a ≡ 0 = omega arith in rw e refl
zero_or (suc bound) zero small = refl
zero_or (suc bound) (suc a) small =
    omega (arith, bit_or_step 0 (suc a), zero_or bound (suc a / 2) (omega arith))

-- The same with the field on the left.
pub bit_or_above : (k q r : ℕ) → r < 2 ^ k → bit_or r (q * 2 ^ k) ≡ q * 2 ^ k + r
bit_or_above zero q r h =
    let e : r ≡ 0 = omega arith in rw e (omega (arith, zero_or (q * 1) (q * 1) (omega arith)))
bit_or_above (suc k) q r h = ground (
  arith,
  bit_or_step r (q * 2 ^ suc k),
  mul_pow q k,
  pow-suc 2 k,
  bit-pos k,
  bit_or_above k q (r / 2) (omega (arith, pow-suc 2 k)),
)
