-- ===== src/Bitmap/Laws.antt =====
-- What `bitmap_set`, `bitmap_clear` and `bitmap_init` do to each bit, and that every access of a
-- bit below `nbits` stays inside the array.
use it_works_os.Base.{
  ℕ, ◌+◌, ◌*◌, ◌/◌, ◌%◌, ◌^◌, ◌≤◌, ◌<◌, ◌≡◌, refl, true, false, List, arith, length, length-set,
  get_or, get_or-set_self, get_or-set_ne, if◌then◌else◌, ◌==◌, set as write,
}
use it_works_os.Bits.{
  bit, digit, mask_set, mask_clear, mask_test-bit, digit-mask_set, digit-mask_clear, mask_set-lt,
  mask_clear-lt,
}
use it_works_os.Bitmap.{Bitmap, word, init, set, clear, test}

pub record IsValid (bm : Bitmap) : Type 0 where
  pub storage : bm.nbits ≤ 32 * length bm.words
  pub small : bm.nbits + 31 < 2 ^ 32
  pub words_fit : (i : ℕ) → word bm i < 2 ^ 32

-- The word of a bit below `nbits` lies in the array.
pub in_bounds : {bm : Bitmap} (pos : ℕ) → IsValid bm → pos < bm.nbits → pos / 32 < length bm.words
in_bounds pos v h = omega arith

same_place : (p q : ℕ) → p / 32 ≡ q / 32 → (p == q) ≡ (p % 32 == q % 32)
same_place p q e = ground arith

word-write :
    (ws : List ℕ) (i j v : ℕ)
    → i < length ws
    → get_or (write ws i v) j 0 ≡ (if i == j then v else get_or ws j 0)
word-write ws i j v h = ground (arith, get_or-set_self ws i v 0 h, get_or-set_ne ws i j v 0)

-- What a write of the word of bit `p` does to bit `q`, when it puts digit `d` at the place of `p`
-- and keeps the others.
test-write :
    (bm : Bitmap) (p q w d : ℕ)
    → p / 32 < length bm.words
    → ((c : ℕ) → c < 32 → digit w c ≡ (if p % 32 == c then d else digit (word bm (p / 32)) c))
    → test (record bm { words = write bm.words (p / 32) w }) q
      ≡ (if p == q then (d == 1) else test bm q)
unfolding test
test-write bm p q w d h digits = ground (
  arith,
  word-write bm.words (p / 32) (q / 32) w h,
  same_place p q,
  digits (q % 32),
  mask_test-bit w (q % 32),
  mask_test-bit (word bm (q / 32)) (q % 32),
)

module _ {bm : Bitmap} (p : ℕ) (v : IsValid bm) (h : p < bm.nbits) where
  pub test-set : (q : ℕ) → test (set bm p) q ≡ (if p == q then true else test bm q)
  unfolding set
  test-set q =
      test-write bm p q _ 1 (in_bounds p v h) λ c hc. digit-mask_set (word bm (p / 32)) (p % 32) c

  pub test-clear : (q : ℕ) → test (clear bm p) q ≡ (if p == q then false else test bm q)
  unfolding clear
  test-clear q =
      test-write bm p q _ 0 (in_bounds p v h)
        λ c hc. digit-mask_clear 32 (word bm (p / 32)) (p % 32) c (omega arith) hc

  pub set-IsValid : IsValid (set bm p)
  unfolding set
  set-IsValid = record {
    storage = omega (
      arith,
      v.storage,
      length-set {0} bm.words (p / 32) (mask_set (word bm (p / 32)) (bit (p % 32))),
    );
    small = v.small;
    words_fit = λ i. ground (
      arith,
      word-write bm.words (p / 32) i (mask_set (word bm (p / 32)) (bit (p % 32))) (in_bounds p v h),
      v.words_fit i,
      mask_set-lt 32 (word bm (p / 32)) (p % 32) (v.words_fit (p / 32)),
    );
  }

  pub clear-IsValid : IsValid (clear bm p)
  unfolding clear
  clear-IsValid = record {
    storage = omega (
      arith,
      v.storage,
      length-set {0} bm.words (p / 32) (mask_clear 32 (word bm (p / 32)) (bit (p % 32))),
    );
    small = v.small;
    words_fit = λ i. ground (
      arith,
      word-write bm.words (p / 32) i (mask_clear 32 (word bm (p / 32)) (bit (p % 32)))
          (in_bounds p v h),
      v.words_fit i,
      mask_clear-lt 32 (word bm (p / 32)) (p % 32) (v.words_fit (p / 32)),
    );
  }

pub nbits-set : (bm : Bitmap) (p : ℕ) → (set bm p).nbits ≡ bm.nbits
unfolding set
nbits-set bm p = refl

pub nbits-clear : (bm : Bitmap) (p : ℕ) → (clear bm p).nbits ≡ bm.nbits
unfolding clear
nbits-clear bm p = refl

-- A buffer of words that is long enough makes a valid bitmap.
pub init-IsValid :
    (bm : Bitmap) (buffer : List ℕ) (nbits : ℕ)
    → nbits ≤ 32 * length buffer
    → nbits + 31 < 2 ^ 32
    → ((i : ℕ) → get_or buffer i 0 < 2 ^ 32)
    → IsValid (init bm buffer nbits)
unfolding init
init-IsValid bm buffer nbits h s w = record { storage = h; small = s; words_fit = w }

pub nbits-init : (bm : Bitmap) (buffer : List ℕ) (n : ℕ) → (init bm buffer n).nbits ≡ n
unfolding init
nbits-init bm buffer n = refl
