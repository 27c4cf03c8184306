-- ===== src/Conv/Digits.antt =====
-- `conv_itoa` and `conv_atoi` of kernel/klib/conv.c together.
use native.Mathlib.Nat.{div-add-mod', mul-le-mul_left, pow-suc, mod-lt}
use it_works_os.Base.{
  ℕ, zero, suc, ◌+◌, ◌-◌, ◌*◌, ◌/◌, ◌%◌, ◌^◌, ◌≤◌, ◌<◌, ◌≡◌, refl, ap, ◌∙◌, arith, true, false,
  ◌&&◌, Option, none, some, List, [], ◌∷◌, ◌++◌, length, if◌then◌else◌, ◌==◌, leb, ltb, inl, inr,
  Bool-cases,
}
use it_works_os.Base.Int.{ℤ, pos, negsuc}
use it_works_os.Conv.{
  to_word, is_negative, negate, digit_char, extract, in_order, conv_itoa, digit_value, read_digits,
  negated, conv_atoi,
}
use it_works_os.Conv.Swap.{reversed, swap_ends-reversed}

-- Bytes that `conv_atoi` reads to the end.
abbrev AllDigits : ℕ → List ℕ → Type 0
AllDigits base [] = Unit
AllDigits base (c ∷ cs) = (digit_value c < base) × AllDigits base cs

AllDigits-append :
    (base c : ℕ) (xs : List ℕ)
    → AllDigits base xs
    → digit_value c < base
    → AllDigits base (xs ++ (c ∷ []))
AllDigits-append base c [] h hc = (hc, tt)
AllDigits-append base c (x ∷ xs) (hx, h) hc = (hx, AllDigits-append base c xs h hc)

-- A number that fits an `int32_t`.
abbrev pub bounded : ℕ → Option ℕ
bounded n = if leb (2 ^ 31) n then none else some n

abbrev push : ℕ → ℕ → Option ℕ → Option ℕ
push base d none = none
push base d (some r) = bounded (r * base + d)

read_digits-append :
    (base c r : ℕ) (xs : List ℕ)
    → AllDigits base xs
    → digit_value c < base
    → read_digits base (xs ++ (c ∷ [])) r ≡ push base (digit_value c) (read_digits base xs r)
unfolding read_digits
read_digits-append base c r [] h hc =
    let e : leb base (digit_value c) ≡ false = ground arith in rw e refl
read_digits-append base c r (x ∷ xs) (hx, h) hc =
    let e : leb base (digit_value x) ≡ false = ground arith in
    elim (Bool-cases (leb (2 ^ 31) (r * base + digit_value x))) [
      | inl large ↦ rw (e, large) refl
      | inr fits ↦ rw (e, fits) (read_digits-append base c (r * base + digit_value x) xs h hc)
    ]

push-bounded : (base n : ℕ) → 2 ≤ base → push base (n % base) (bounded (n / base)) ≡ bounded n
push-bounded base n low = elim (Bool-cases (leb (2 ^ 31) (n / base))) [
  | inl large ↦
      let all : leb (2 ^ 31) n ≡ true =
        ground (arith, div-add-mod' n base, mul-le-mul_left (n / base) low) in
      rw (large, all) refl
  | inr fits ↦ rw fits (ap bounded (div-add-mod' n base))
]

digit_value-digit_char : (d : ℕ) → d < 16 → digit_value (digit_char d) ≡ d
unfolding digit_char
digit_value-digit_char d h = ground arith

-- What the loop of `conv_itoa` has extracted.
record Extracted (base n fuel : ℕ) (o : Option (List ℕ)) : Type 0 where
  str : List ℕ
  done : o ≡ some str
  digits : AllDigits base (reversed str)
  value : read_digits base (reversed str) 0 ≡ bounded n
  short : length str ≤ fuel

pub word : (v : ℤ) → to_word v < 2 ^ 32
word (pos n) = omega arith
word (negsuc n) = omega arith

-- The numbers of an `int32_t`, and what is read from the string of one.
abbrev pub IsInt32 : ℤ → Type 0
IsInt32 (pos n) = n < 2 ^ 31
IsInt32 (negsuc n) = n < 2 ^ 31

abbrev pub read_as : ℕ → ℤ → Option ℕ
read_as base (pos n) = some n
read_as base (negsuc n) = if (base == 10) && ltb n (2 ^ 31 - 1) then some (2 ^ 32 - 1 - n) else none

module _ (base : ℕ) (low : 2 ≤ base) (high : base ≤ 16) where
  shrinks : (fuel n : ℕ) → n < 2 ^ suc fuel → n / base < 2 ^ fuel
  shrinks fuel n h =
      omega (arith, div-add-mod' n base, mul-le-mul_left (n / base) low, pow-suc 2 fuel)

  extract_lem :
      (fuel n : ℕ) → n < 2 ^ fuel → n < 2 ^ 32 → Extracted base n fuel (extract fuel base n)
  unfolding extract read_digits
  extract_lem zero n h word =
      let e : (n == 0) ≡ true = ground arith in
      rw e
        (record { str = []; done = refl; digits = tt; value = ground arith; short = omega arith })
  extract_lem (suc fuel) n h word = elim (Bool-cases (n == 0)) [
    | inl e ↦
        rw e
          (record { str = []; done = refl; digits = tt; value = ground arith; short = omega arith })
    | inr e ↦
        let smaller : n / base < 2 ^ 32 = shrinks 32 n (omega arith) in
        let rest = extract_lem fuel (n / base) (shrinks fuel n h) smaller in
        let below : n % base < base = mod-lt n (omega arith) in
        let read : digit_value (digit_char (n % base)) ≡ n % base =
          digit_value-digit_char (n % base) (omega arith) in
        rw (e, rest.done)
          (record {
            str = digit_char (n % base) ∷ rest.str;
            done = refl;
            digits =
                AllDigits-append base (digit_char (n % base)) (reversed rest.str) rest.digits
                  (rw read below);
            value =
                read_digits-append base (digit_char (n % base)) 0 (reversed rest.str) rest.digits
                  (rw read below)
                ∙ rw (rest.value, read) (push-bounded base n low);
            short = omega (arith, rest.short);
          })
  ]

  conv_atoi-digits : (xs : List ℕ) → AllDigits base xs → conv_atoi xs base ≡ read_digits base xs 0
  unfolding conv_atoi read_digits
  conv_atoi-digits [] h = refl
  conv_atoi-digits (c ∷ cs) (hc, h) = let e : (c == 0x2D) ≡ false = ground arith in rw e refl

  ordered :
      (sign : List ℕ) (n : ℕ)
      → n < 2 ^ 32
      → (o : Option (List ℕ)) → Extracted base n 32 o
      → (str : List ℕ) × (in_order sign o ≡ some (sign ++ str))
        × AllDigits base str
        × (read_digits base str 0 ≡ bounded n)
  ordered sign n h o x =
      let bytes : length x.str % 2 ^ 8 ≡ length x.str = omega (arith, x.short) in
      (reversed x.str, rw (x.done, bytes, swap_ends-reversed) refl, x.digits, x.value)

  -- The digits of a number, with its sign before them.
  abbrev Written : List ℕ → ℕ → Option (List ℕ) → Type 0
  Written sign n o =
      (str : List ℕ) × (o ≡ some (sign ++ str))
      × AllDigits base str
      × (read_digits base str 0 ≡ bounded n)

  written :
      (sign : List ℕ) (n : ℕ)
      → n < 2 ^ 32
      → Written sign n
          (if n == 0 then some (sign ++ (0x30 ∷ [])) else in_order sign (extract 32 base n))
  unfolding read_digits
  written sign n h = elim (Bool-cases (n == 0)) [
    | inl e ↦
        let zero_read : leb base (digit_value 0x30) ≡ false = ground arith in
        rw e (0x30 ∷ [], refl, (omega arith, tt), rw zero_read (ground arith))
    | inr e ↦ rw e (ordered sign n h _ (extract_lem 32 n h h))
  ]

  pub read_back :
      (v : ℤ)
      → (str : List ℕ) × (conv_itoa v base ≡ some str)
        × (conv_atoi str base ≡ (
            if (base == 10) && is_negative v
            then negated (bounded (negate (to_word v)))
            else bounded (to_word v)))
  unfolding conv_itoa conv_atoi
  read_back v = elim (Bool-cases ((base == 10) && is_negative v)) [
    | inl e ↦
        let (str, made, digits, value) = written (0x2D ∷ []) (negate (to_word v)) (omega arith) in
        (0x2D ∷ str, rw e made, rw e (ap negated value))
    | inr e ↦
        let (str, made, digits, value) = written [] (to_word v) (word v) in
        (str, rw e made, rw e (conv_atoi-digits str digits ∙ value))
  ]

  -- `conv_itoa` of an `int32_t` in a base from 2 to 16 ends. In that base `conv_atoi` of its string gives
  -- the number back, as a word of 32 bits, if the number is not negative, or the base is 10 and it is not
  -- the least one; otherwise `conv_atoi` passes the largest `int32_t`, which C leaves undefined.
  pub conv_atoi-conv_itoa :
      (v : ℤ)
      → IsInt32 v
      → (str : List ℕ) × (conv_itoa v base ≡ some str) × (conv_atoi str base ≡ read_as base v)
  conv_atoi-conv_itoa (pos n) h =
      let (str, made, value) = read_back (pos n) in (str, made, value ∙ ground arith)
  conv_atoi-conv_itoa (negsuc n) h =
      let (str, made, value) = read_back (negsuc n) in
      (
        str,
        made,
        value ∙ elim (Bool-cases (base == 10)) [
          | inl ten ↦ rw ten (elim (Bool-cases (ltb n (2 ^ 31 - 1))) [
            | inl more ↦ rw more (ground arith)
            | inr least ↦ rw least (ground arith)
          ])
          | inr other ↦ rw other (ground arith)
        ],
      )
