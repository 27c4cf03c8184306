-- ===== src/Bitmap/Range.antt =====
-- The loops over a run of consecutive bits that kernel/mm/pmm.c and kernel/irq/irq.c share.
pub mod Change
pub mod Scan
pub mod Count
use it_works_os.Base.{
  ℕ, zero, suc, ◌+◌, ◌-◌, ◌%◌, ◌^◌, Bool, true, false, Option, none, some, if◌then◌else◌, ◌==◌,
}
use it_works_os.Bitmap.{Bitmap, set, clear, test}

-- for (j = 0; j < n; j++) bitmap_set(bm, first + j)
unfoldable pub set_range : Bitmap → ℕ → ℕ → Bitmap
set_range bm first zero = bm
set_range bm first (suc n) = set_range (set bm first) (first + 1) n

-- for (j = 0; j < n; j++) bitmap_clear(bm, first + j)
unfoldable pub clear_range : Bitmap → ℕ → ℕ → Bitmap
clear_range bm first zero = bm
clear_range bm first (suc n) = clear_range (clear bm first) (first + 1) n

-- for (j = 0; j < n; j++) if (!bitmap_test(bm, first + j)) return ...
unfoldable pub all_set : Bitmap → ℕ → ℕ → Bool
all_set bm first zero = true
all_set bm first (suc n) = elim (test bm first) [ true ↦ all_set bm (first + 1) n | false ↦ false ]

-- for (j = 0; j < n; j++) if (bitmap_test(bm, first + j)) return ...
pub all_clear : Bitmap → ℕ → ℕ → Bool
all_clear bm first zero = true
all_clear bm first (suc n) = elim (test bm first) [
  | true ↦ false
  | false ↦ all_clear bm (first + 1) n
]

-- The search for `n` consecutive clear bits, at bit `i` with `left` rounds to go and the counter
-- `consecutive`: the first bit of the run found. The sums are those of `uint32_t`.
unfoldable pub scan : Bitmap → ℕ → ℕ → ℕ → ℕ → Option ℕ
scan bm n zero i consecutive = none
scan bm n (suc left) i consecutive =
    let again = scan bm n left (i + 1) 0 in
    let more = scan bm n left (i + 1) ((consecutive + 1) % 2 ^ 32) in
    if test bm i
    then again
    else (if (consecutive + 1) % 2 ^ 32 == n then some ((i + 2 ^ 32 - n + 1) % 2 ^ 32) else more)

-- The number of clear bits among the next `left` from bit `i` on, counted upwards from `acc`.
pub count_loop : Bitmap → ℕ → ℕ → ℕ → ℕ
count_loop bm zero i acc = acc
count_loop bm (suc left) i acc =
    count_loop bm left (i + 1) (if test bm i then acc else (acc + 1) % 2 ^ 32)
