-- ===== src/Bits/Align.antt =====
-- kernel/include/base/align.h: the alignment macros are rounding to a multiple.
use native.Mathlib.Nat.{pow-suc}
use it_works_os.Base.{
  ℕ, zero, suc, ◌+◌, ◌-◌, ◌*◌, ◌/◌, ◌%◌, ◌^◌, ◌≤◌, ◌<◌, ◌≡◌, arith, bit_and, Bool, ◌==◌,
}
use it_works_os.Bits.Step.{bit_and_step}
use it_works_os.Bits.{complement, bit-pos, mul_pow}

-- `ALIGN_UP`, `ALIGN_DOWN` and `ALIGN_TEST` on words of `k` bits
unfoldable pub align_up : ℕ → ℕ → ℕ → ℕ
align_up k x align = bit_and ((x + align - 1) % 2 ^ k) (complement k (align - 1))

pub align_down : ℕ → ℕ → ℕ → ℕ
align_down k x align = bit_and x (complement k (align - 1))

abbrev pub align_test : ℕ → ℕ → Bool
align_test x align = x % align == 0

bit_and_ones : (k y : ℕ) → y < 2 ^ k → bit_and y (2 ^ k - 1) ≡ y
bit_and_ones zero y h = let e : y ≡ 0 = omega arith in rw e
bit_and_ones (suc k) y h = ground (
  arith,
  bit_and_step y (2 ^ suc k - 1),
  pow-suc 2 k,
  bit-pos k,
  bit_and_ones k (y / 2) (omega (arith, pow-suc 2 k)),
)

-- Masking off the low `j` bits keeps the high field.
pub bit_and_high :
    (j k q r : ℕ)
    → r < 2 ^ j
    → j ≤ k
    → q * 2 ^ j + r < 2 ^ k
    → bit_and (q * 2 ^ j + r) (complement k (2 ^ j - 1)) ≡ q * 2 ^ j
bit_and_high zero k q r hr hj h =
    let e : r ≡ 0 = omega arith in
    let x : q * 2 ^ 0 + 0 ≡ q = omega arith in
    let w : complement k (2 ^ 0 - 1) ≡ 2 ^ k - 1 = omega arith in
    rw (e, x, w) (omega (arith, bit_and_ones k q (omega arith)))
bit_and_high (suc j) zero q r hr hj h = absurd (omega arith)
bit_and_high (suc j) (suc k) q r hr hj h = ground (
  arith,
  bit_and_step (q * 2 ^ suc j + r) (complement (suc k) (2 ^ suc j - 1)),
  mul_pow q j,
  pow-suc 2 j,
  pow-suc 2 k,
  bit-pos j,
  bit-pos k,
  bit_and_high j k q (r / 2) (omega (arith, pow-suc 2 j)) (omega arith)
      (omega (arith, pow-suc 2 k, mul_pow q j)),
)

-- Page frames of 4 KiB in 64-bit addresses.
pub align_down_frame : (x : ℕ) → x < 2 ^ 64 → align_down 64 x 4096 ≡ x / 4096 * 4096
unfolding align_down
align_down_frame x h =
    let e : x / 4096 * 2 ^ 12 + x % 4096 ≡ x = omega arith in
    rw e at (bit_and_high 12 64 (x / 4096) (x % 4096) (omega arith) (omega arith) (omega arith))

pub align_up_frame : (x : ℕ) → x + 4095 < 2 ^ 64 → align_up 64 x 4096 ≡ (x + 4095) / 4096 * 4096
unfolding align_up
align_up_frame x h =
    let e : (x + 4096 - 1) % 2 ^ 64 ≡ x + 4095 = omega arith in
    rw e (unfold align_down in align_down_frame (x + 4095) h)

-- Payloads of the heap: words of 4 bytes in a 32-bit `size_t`.
pub align_up_word : (x : ℕ) → x + 3 < 2 ^ 32 → align_up 32 x 4 ≡ (x + 3) / 4 * 4
unfolding align_up
align_up_word x h =
    let w : (x + 4 - 1) % 2 ^ 32 ≡ x + 3 = omega arith in
    let e : (x + 3) / 4 * 2 ^ 2 + (x + 3) % 4 ≡ x + 3 = omega arith in
    rw w (
      rw e at
        (bit_and_high 2 32 ((x + 3) / 4) ((x + 3) % 4) (omega arith) (omega arith) (omega arith)))
