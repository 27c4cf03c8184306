-- ===== src/Bitmap.antt =====
-- kernel/klib/bitmap.c and kernel/include/klib/bitmap.h: an array of bits over 32-bit words.
-- The functions stay shut: clients reason by the laws of `Laws`, which speak of `test` alone.
pub mod Laws
pub mod Find
pub mod Range
use it_works_os.Base.{
  ℕ, zero, suc, ◌+◌, ◌-◌, ◌*◌, ◌/◌, ◌%◌, ◌^◌, Bool, Option, none, some, List, if◌then◌else◌, leb,
  ◌==◌, get_or, set as write,
}
use it_works_os.Bits.{bit, complement, mask_test, mask_set, mask_clear}

-- `struct bitmap`; `words` is the array that the field `data` points to.
pub record Bitmap : Type 0 where
  pub words : List ℕ
  pub nbits : ℕ
  pub nelems : ℕ

-- `BITMAP_ELEMS`, in the 32-bit `size_t`
abbrev pub elems : ℕ → ℕ
elems nbits = (nbits + 32 - 1) % 2 ^ 32 / 32

-- `bitmap_init` leaves `nelems` alone.
unfoldable pub init : Bitmap → List ℕ → ℕ → Bitmap
init bm buffer nbits = record bm { words = buffer; nbits = nbits }

-- `BITMAP_INIT`
unfoldable pub static_init : List ℕ → ℕ → Bitmap
static_init buffer bits = record { words = buffer; nbits = bits; nelems = elems bits }

abbrev pub word : Bitmap → ℕ → ℕ
word bm i = get_or bm.words i 0

unfoldable pub set : Bitmap → ℕ → Bitmap
set bm pos = record bm {
  words = write bm.words (pos / 32) (mask_set (word bm (pos / 32)) (bit (pos % 32)));
}

unfoldable pub clear : Bitmap → ℕ → Bitmap
clear bm pos = record bm {
  words = write bm.words (pos / 32) (mask_clear 32 (word bm (pos / 32)) (bit (pos % 32)));
}

unfoldable pub test : Bitmap → ℕ → Bool
test bm pos = mask_test (word bm (pos / 32)) (bit (pos % 32))

-- `bitmap_size`
pub size : ℕ → ℕ
size nbits = elems nbits * 4 % 2 ^ 32

-- The inner loop of `bitmap_find_zero` at bit `b`, with `left` rounds to go: `some r` is a
-- `return` of the function, `none` the end of the loop.
find_bit : ℕ → ℕ → ℕ → ℕ → ℕ → Option (Option ℕ)
find_bit nbits i free zero b = none
find_bit nbits i free (suc left) b =
    let pos = i * 32 + b in
    let rest = find_bit nbits i free left (b + 1) in
    if mask_test free (bit b) then some (if leb nbits pos then none else some pos) else rest

-- The outer loop at word `i`.
find_word : Bitmap → ℕ → ℕ → Option ℕ
find_word bm zero i = none
find_word bm (suc left) i =
    let free = complement 32 (word bm i) in
    let rest = find_word bm left (i + 1) in
    if free == 0 then rest else elim (find_bit bm.nbits i free 32 0) [ some r ↦ r | none ↦ rest ]

-- `some pos` is `true` with `*bitpos = pos`.
unfoldable pub find_zero : Bitmap → Option ℕ
unfolding find_word find_bit
find_zero bm = find_word bm (elems bm.nbits) 0
