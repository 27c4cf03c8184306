-- ===== src/Bits.antt =====
-- kernel/include/base/bit.h: bit masks on words, one binary digit at a time.
mod Step
pub mod Align
pub mod Mask
pub mod Page
use Step.{bit_or_step, bit_and_step}
use Prim.Native.Nat.{bit_and-bitwise}
use native.Mathlib.Nat.{pow-suc}
use mathlib.Core.WellFounded
use it_works_os.Base.{
  ℕ, zero, suc, ◌+◌, ◌-◌, ◌*◌, ◌/◌, ◌%◌, ◌^◌, ◌≤◌, ◌<◌, min, max, bit_and, bit_or, ◌≡◌, ◌≢◌, refl,
  arith, if◌then◌else◌, ◌==◌, ap, Bool, not, lt_wf, ◌∙◌, true, false,
}

-- `BIT(n)`, for n below the width of the word.
abbrev pub bit : ℕ → ℕ
bit n = 2 ^ n

-- `~x` on a word of `k` bits.
abbrev pub complement : ℕ → ℕ → ℕ
complement k x = 2 ^ k - 1 - x

-- `MASK_TEST(v, mask)`, and the tests written out as `(v & mask) != 0`.
unfoldable pub mask_test : ℕ → ℕ → Bool
mask_test v mask = not (bit_and v mask == 0)

-- `MASK_SET(v, mask)`
unfoldable pub mask_set : ℕ → ℕ → ℕ
mask_set v mask = bit_or v mask

-- `MASK_CLEAR(v, mask)` on a word of `k` bits
unfoldable pub mask_clear : ℕ → ℕ → ℕ → ℕ
mask_clear k v mask = bit_and v (complement k mask)

-- Digit `b` of `w`.
pub digit : ℕ → ℕ → ℕ
digit w zero = w % 2
digit w (suc b) = digit (w / 2) b

pub digit-lt : (w b : ℕ) → digit w b < 2
unfolding digit
digit-lt w zero = omega arith
digit-lt w (suc b) = digit-lt (w / 2) b

pub digit-zero : (b : ℕ) → digit 0 b ≡ 0
unfolding digit
digit-zero zero = refl
digit-zero (suc b) = digit-zero b

half-bit_or : (x y : ℕ) → bit_or x y / 2 ≡ bit_or (x / 2) (y / 2)
half-bit_or x y = omega (arith, bit_or_step x y)

half-bit_and : (x y : ℕ) → bit_and x y / 2 ≡ bit_and (x / 2) (y / 2)
half-bit_and x y = omega (arith, bit_and_step x y)

digit-bit_or : (x y b : ℕ) → digit (bit_or x y) b ≡ max (digit x b) (digit y b)
unfolding digit
digit-bit_or x y zero = omega (arith, bit_or_step x y)
digit-bit_or x y (suc b) = rw half-bit_or (digit-bit_or (x / 2) (y / 2) b)

digit-bit_and : (x y b : ℕ) → digit (bit_and x y) b ≡ min (digit x b) (digit y b)
unfolding digit
digit-bit_and x y zero = omega (arith, bit_and_step x y)
digit-bit_and x y (suc b) = rw half-bit_and (digit-bit_and (x / 2) (y / 2) b)

-- A word shifted by one more place is twice the word shifted.
pub mul_pow : (m w : ℕ) → m * 2 ^ suc w ≡ 2 * (m * 2 ^ w)
mul_pow m w = rw pow-suc (omega arith)

half-bit : (b : ℕ) → 2 ^ suc b / 2 ≡ 2 ^ b
half-bit b = omega (arith, pow-suc 2 b)

digit-bit_self : (b : ℕ) → digit (bit b) b ≡ 1
unfolding digit
digit-bit_self zero = refl
digit-bit_self (suc b) = rw half-bit (digit-bit_self b)

digit-bit_ne : (b c : ℕ) → b ≢ c → digit (bit b) c ≡ 0
unfolding digit
digit-bit_ne zero zero ne = absurd (ne refl)
digit-bit_ne zero (suc c) ne = digit-zero c
digit-bit_ne (suc b) zero ne = omega (arith, pow-suc 2 b)
digit-bit_ne (suc b) (suc c) ne = rw half-bit (digit-bit_ne b c (λ e. ne (ap suc e)))

pub digit-complement : (k x b : ℕ) → x < 2 ^ k → b < k → digit (complement k x) b ≡ 1 - digit x b
unfolding digit
digit-complement zero x b h lt = absurd (omega arith)
digit-complement (suc k) x zero h lt = omega (arith, pow-suc 2 k)
digit-complement (suc k) x (suc b) h lt =
    let half : complement (suc k) x / 2 ≡ complement k (x / 2) = omega (arith, pow-suc 2 k) in
    rw half (digit-complement k (x / 2) b (omega (arith, pow-suc 2 k)) (omega arith))

zero-bit_and : (b : ℕ) → bit_and 0 b ≡ 0
zero-bit_and b = bit_and-bitwise 0 b

-- By induction on a bound of the word, since each step halves it.
zero_below : (bound a : ℕ) → a ≤ bound → bit_and a 0 ≡ 0
zero_below zero a small = let e : a ≡ 0 = omega arith in rw e refl
zero_below (suc bound) zero small = refl
zero_below (suc bound) (suc a) small =
    omega (arith, bit_and_step (suc a) 0, zero_below bound (suc a / 2) (omega arith))

pub bit_and-zero : (a : ℕ) → bit_and a 0 ≡ 0
bit_and-zero a = zero_below a a (omega arith)

bit_and-bit : (w b : ℕ) → bit_and w (bit b) ≡ digit w b * 2 ^ b
unfolding digit
bit_and-bit w zero = omega (arith, bit_and_step w 1, bit_and-zero (w / 2))
bit_and-bit w (suc b) = omega (
  arith,
  rw half-bit at (bit_and_step w (2 ^ suc b)),
  pow-suc 2 b,
  bit_and-bit (w / 2) b,
  ap (λ (t : ℕ). digit (w / 2) b * t) (pow-suc 2 b),
)

pub bit-pos : (b : ℕ) → 0 < 2 ^ b
bit-pos zero = omega arith
bit-pos (suc b) = omega (arith, bit-pos b, pow-suc 2 b)

pub bit-lt : (k b : ℕ) → b < k → bit b < 2 ^ k
bit-lt zero b h = absurd (omega arith)
bit-lt (suc k) zero h = omega (arith, bit-pos k, pow-suc 2 k)
bit-lt (suc k) (suc b) h = omega (arith, bit-lt k b (omega arith), pow-suc 2 k, pow-suc 2 b)

-- A mask of one bit tests the digit of that place.
pub mask_test-bit : (w b : ℕ) → mask_test w (bit b) ≡ (digit w b == 1)
unfolding mask_test
mask_test-bit w b = ground (arith, bit_and-bit w b, digit-lt w b, bit-pos b, spread (digit w b))
  where
    spread : (d : ℕ) → d < 2 → (d * 2 ^ b == 0) ≡ not (d == 1)
    spread zero h = ground arith
    spread (suc zero) h = ground (arith, bit-pos b)
    spread (suc (suc d)) h = absurd (omega arith)

-- Setting one bit changes the digit of that place to 1 and no other.
pub digit-mask_set : (w b c : ℕ) → digit (mask_set w (bit b)) c ≡ (if b == c then 1 else digit w c)
unfolding mask_set
digit-mask_set w b c =
    ground (arith, digit-bit_or w (bit b) c, digit-bit_self b, digit-bit_ne b c, digit-lt w c)

-- Clearing one bit changes the digit of that place to 0 and no other.
pub digit-mask_clear :
    (k w b c : ℕ)
    → b < k
    → c < k
    → digit (mask_clear k w (bit b)) c ≡ (if b == c then 0 else digit w c)
unfolding mask_clear
digit-mask_clear k w b c hb hc = ground (
  arith,
  digit-bit_and w (complement k (bit b)) c,
  digit-complement k (bit b) c (bit-lt k b hb) hc,
  digit-bit_self b,
  digit-bit_ne b c,
  digit-lt w c,
)

-- Words stay words.
pub mask_set-lt : (k w b : ℕ) → w < 2 ^ k → b < k → mask_set w (bit b) < 2 ^ k
unfolding mask_set
mask_set-lt k w b h hb = bit_or-lt k w (bit b) h (bit-lt k b hb)
  where
    bit_or-lt : (k x y : ℕ) → x < 2 ^ k → y < 2 ^ k → bit_or x y < 2 ^ k
    bit_or-lt zero x y hx hy =
        let ex : x ≡ 0 = omega arith in let ey : y ≡ 0 = omega arith in rw (ex, ey) (omega arith)
    bit_or-lt (suc k) x y hx hy = omega (
      arith,
      bit_or_step x y,
      pow-suc 2 k,
      bit_or-lt k (x / 2) (y / 2) (omega (arith, pow-suc 2 k)) (omega (arith, pow-suc 2 k)),
    )

pub mask_clear-lt : (k w b : ℕ) → w < 2 ^ k → mask_clear k w (bit b) < 2 ^ k
unfolding mask_clear
mask_clear-lt k w b h = omega (arith, bit_and-le w (complement k (bit b)))
  where
    below : (bound x y : ℕ) → x ≤ bound → bit_and x y ≤ x
    below bound zero y small = omega (arith, zero-bit_and y)
    below zero (suc x) y small = absurd (omega arith)
    below (suc bound) (suc x) y small =
        omega (arith, bit_and_step (suc x) y, below bound (suc x / 2) (y / 2) (omega arith))

    bit_and-le : (x y : ℕ) → bit_and x y ≤ x
    bit_and-le x y = below x x y (omega arith)
