-- ===== src/Memory.antt =====
-- kernel/klib/memory.c: blocks of bytes. Memory is a function from addresses, and a block that is passed
-- lies in the address space, so that no address wraps.
pub mod Move
mod Tests
use it_works_os.Base.{
  ℕ, zero, suc, ◌+◌, ◌-◌, ◌%◌, ◌^◌, Bool, Option, none, some, if◌then◌else◌, ◌==◌, ltb,
}
use it_works_os.Base.Int.{ℤ, pos, negsuc}

-- `d[i] = v`
unfoldable pub write_byte : (ℕ → ℕ) → ℕ → ℕ → ℕ → ℕ
write_byte m a v x = if x == a then v else m x

-- The loops run on the rounds left, from index `i` on.
pub fill_from : ℕ → ℕ → ℕ → ℕ → (ℕ → ℕ) → ℕ → ℕ
fill_from dst v zero i m = m
fill_from dst v (suc n) i m = fill_from dst v n (i + 1) (write_byte m (dst + i) v)

pub memset : ℕ → ℕ → ℕ → (ℕ → ℕ) → ℕ → ℕ
memset dst val n m = fill_from dst (val % 2 ^ 8) n 0 m

pub copy_up : ℕ → ℕ → ℕ → ℕ → (ℕ → ℕ) → ℕ → ℕ
copy_up dst src zero i m = m
copy_up dst src (suc n) i m = copy_up dst src n (i + 1) (write_byte m (dst + i) (m (src + i)))

-- The loop from the end down.
pub copy_down : ℕ → ℕ → ℕ → (ℕ → ℕ) → ℕ → ℕ
copy_down dst src zero m = m
copy_down dst src (suc i) m = copy_down dst src i (write_byte m (dst + i) (m (src + i)))

pub memcpy : ℕ → ℕ → ℕ → (ℕ → ℕ) → ℕ → ℕ
memcpy dst src n m = copy_up dst src n 0 m

pub memmove : ℕ → ℕ → ℕ → (ℕ → ℕ) → ℕ → ℕ
memmove dst src n m =
    if dst == src then m else if ltb dst src then copy_up dst src n 0 m else copy_down dst src n m

-- `s1[i] - s2[i]`
abbrev pub byte_difference : ℕ → ℕ → ℤ
byte_difference a b = if ltb a b then negsuc (b - a - 1) else pos (a - b)

pub compare_from : ℕ → ℕ → ℕ → ℕ → (ℕ → ℕ) → ℤ
compare_from src1 src2 zero i m = pos 0
compare_from src1 src2 (suc n) i m =
    let rest = compare_from src1 src2 n (i + 1) m in
    if m (src1 + i) == m (src2 + i) then rest else byte_difference (m (src1 + i)) (m (src2 + i))

pub memcmp : ℕ → ℕ → ℕ → (ℕ → ℕ) → ℤ
memcmp src1 src2 n m = compare_from src1 src2 n 0 m

pub find_from : ℕ → ℕ → ℕ → ℕ → (ℕ → ℕ) → Option ℕ
find_from src v zero i m = none
find_from src v (suc n) i m =
    let rest = find_from src v n (i + 1) m in if m (src + i) == v then some (src + i) else rest

pub memchr : ℕ → ℕ → ℕ → (ℕ → ℕ) → Option ℕ
memchr src val n m = find_from src (val % 2 ^ 8) n 0 m
