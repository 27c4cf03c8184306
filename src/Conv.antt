-- ===== src/Conv.antt =====
-- kernel/klib/conv.c: numbers and their digits. A string is a list of bytes without the final NUL, an
-- `int32_t` that is computed a word of 32 bits. The loop of `conv_itoa` runs on fuel; its result `none`
-- is a run that has not ended.
pub mod Swap
pub mod Digits
pub mod Bound
mod Tests
use it_works_os.Base.{
  ℕ, zero, suc, ◌+◌, ◌-◌, ◌*◌, ◌/◌, ◌%◌, ◌^◌, Bool, true, false, ◌&&◌, Option, none, some, List, [],
  ◌∷◌, ◌++◌, length, get_or, set, if◌then◌else◌, ◌==◌, ltb, leb,
}
use it_works_os.Base.Int.{ℤ, pos, negsuc}

-- `CONV_BASE_10`
abbrev pub conv_base_10 : ℕ
conv_base_10 = 10

-- The bits of an `int32_t`, and its sign
abbrev pub to_word : ℤ → ℕ
to_word (pos n) = n % 2 ^ 32
to_word (negsuc n) = 2 ^ 32 - 1 - n % 2 ^ 32

abbrev pub is_negative : ℤ → Bool
is_negative (pos n) = false
is_negative (negsuc n) = true

abbrev pub negate : ℕ → ℕ
negate n = (2 ^ 32 - n) % 2 ^ 32

pub digit_char : ℕ → ℕ
digit_char r = if ltb 9 r then (r - 10) + 0x41 else r + 0x30

abbrev pub prepend : ℕ → Option (List ℕ) → Option (List ℕ)
prepend c none = none
prepend c (some cs) = some (c ∷ cs)

-- The loop that extracts the digits, the lowest one first.
pub extract : ℕ → ℕ → ℕ → Option (List ℕ)
extract zero base n = if n == 0 then some [] else none
extract (suc fuel) base n =
    let rest = extract fuel base (n / base) in
    if n == 0 then some [] else prepend (digit_char (n % base)) rest

-- The loop that swaps the ends, `k` rounds from `i` on, of `digits` bytes.
unfoldable pub swap_ends : ℕ → ℕ → ℕ → List ℕ → List ℕ
swap_ends digits zero i str = str
swap_ends digits (suc k) i str =
    let tmp = get_or str i 0 in
    swap_ends digits k (i + 1)
      (set (set str i (get_or str (digits - 1 - i) 0)) (digits - 1 - i) tmp)

-- The end of `conv_itoa`, at the digits; `digits` is a `uint8_t`.
abbrev pub in_order : List ℕ → Option (List ℕ) → Option (List ℕ)
in_order sign none = none
in_order sign (some str) =
    let digits = length str % 2 ^ 8 in some (sign ++ swap_ends digits (digits / 2) 0 str)

-- A number below 2^32 has at most 32 digits.
pub conv_itoa : ℤ → ℕ → Option (List ℕ)
conv_itoa value base =
    let negative = (base == conv_base_10) && is_negative value in
    let n = if negative then negate (to_word value) else to_word value in
    let sign = if negative then 0x2D ∷ [] else [] in
    if n == 0 then some (sign ++ (0x30 ∷ [])) else in_order sign (extract 32 base n)

abbrev pub digit_value : ℕ → ℕ
digit_value c =
    if leb 0x30 c && leb c 0x39
    then c - 0x30
    else if leb 0x41 c && leb c 0x46
    then c - 0x41 + 10
    else if leb 0x61 c && leb c 0x66
    then c - 0x61 + 10
    else 255

-- The loop of `conv_atoi`; none is a result that does not fit an `int32_t`, which C leaves undefined.
pub read_digits : ℕ → List ℕ → ℕ → Option ℕ
read_digits base [] result = some result
read_digits base (c ∷ cs) result =
    let next = result * base + digit_value c in
    let rest = read_digits base cs next in
    if leb base (digit_value c) then some result else if leb (2 ^ 31) next then none else rest

abbrev pub negated : Option ℕ → Option ℕ
negated none = none
negated (some result) = some (negate result)

pub conv_atoi : List ℕ → ℕ → Option ℕ
conv_atoi [] base = some 0
conv_atoi (c ∷ cs) base =
    if c == 0x2D then negated (read_digits base cs 0) else read_digits base (c ∷ cs) 0
