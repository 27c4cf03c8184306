-- ===== src/Printf/Numeral.antt =====
-- The digits that kernel/klib/printf.c extracts.
use native.Mathlib.Nat.{pow-suc, mod-lt, mul-le-mul_left}
use native.Mathlib.Nat.{div-add-mod'}
use it_works_os.Base.{
  ℕ, zero, suc, ◌+◌, ◌-◌, ◌*◌, ◌/◌, ◌%◌, ◌^◌, ◌≤◌, ◌<◌, ◌≡◌, ◌≢◌, ◌⊎◌, inl, inr, refl, ap, sym, ◌∙◌,
  arith, Bool, true, false, Option, some, List, [], ◌∷◌, ◌++◌, length, ◌==◌, Bool-cases,
}
use it_works_os.Conv.Swap.{reversed, swap_ends-reversed, length-reversed}
use it_works_os.Conv.{swap_ends, digit_value}
use it_works_os.Dlist.Chain.{first_or}
use it_works_os.Printf.{digit_of, digits_from, reverse_from, reverse}

-- The value of digits in a base, the highest one first.
abbrev pub value_of : ℕ → ℕ → List ℕ → ℕ
value_of base acc [] = acc
value_of base acc (c ∷ cs) = value_of base (acc * base + digit_value c) cs

abbrev pub DigitsOf : ℕ → Bool → List ℕ → Type 0
DigitsOf base uppercase [] = Unit {0}
DigitsOf base uppercase (c ∷ cs) =
    ((d : ℕ) × (d < base) × (c ≡ digit_of uppercase d)) × DigitsOf base uppercase cs

-- The numeral of a number: its digits, with its value, and no zero in front of another digit.
pub record Numeral (base : ℕ) (uppercase : Bool) (v : ℕ) (t : List ℕ) : Type 0 where
  pub digits : DigitsOf base uppercase t
  pub value : value_of base 0 t ≡ v
  pub lead : first_or t 0x30 ≢ 0x30
  pub short : length t ≤ 32

value_of-append :
    (base acc c : ℕ) (xs : List ℕ)
    → value_of base acc (xs ++ (c ∷ [])) ≡ value_of base acc xs * base + digit_value c
value_of-append base acc c [] = refl
value_of-append base acc c (x ∷ xs) = value_of-append base (acc * base + digit_value x) c xs

DigitsOf-append :
    (base : ℕ) (uppercase : Bool) (d : ℕ) (xs : List ℕ)
    → DigitsOf base uppercase xs
    → d < base
    → DigitsOf base uppercase (xs ++ (digit_of uppercase d ∷ []))
DigitsOf-append base uppercase d [] h less = ((d, less, refl), tt)
DigitsOf-append base uppercase d (x ∷ xs) (hx, h) less =
    (hx, DigitsOf-append base uppercase d xs h less)

digit_value-digit_of : (uppercase : Bool) (d : ℕ) → d < 16 → digit_value (digit_of uppercase d) ≡ d
unfolding digit_of
digit_value-digit_of true d h = ground arith
digit_value-digit_of false d h = ground arith

digit_of-ne : (uppercase : Bool) (d : ℕ) → d ≢ 0 → digit_of uppercase d ≢ 0x30
unfolding digit_of
digit_of-ne true d h = ground arith
digit_of-ne false d h = ground arith

-- The first byte stays when one is added at the end.
first-append :
    (xs : List ℕ) (c : ℕ)
    → (xs ≡ [] → c ≢ 0x30)
    → (first_or xs 0x30 ≢ 0x30) ⊎ (xs ≡ [])
    → first_or (xs ++ (c ∷ [])) 0x30 ≢ 0x30
first-append [] c last lead = last refl
first-append (x ∷ xs) c last (inl h) = h
first-append (x ∷ xs) c last (inr bad) = cc

record Extracted (base : ℕ) (uppercase : Bool) (v fuel : ℕ) (o : Option (List ℕ)) : Type 0 where
  str : List ℕ
  done : o ≡ some str
  digits : DigitsOf base uppercase (reversed str)
  value : value_of base 0 (reversed str) ≡ v
  lead : (first_or (reversed str) 0x30 ≢ 0x30) ⊎ (reversed str ≡ [])
  short : length str ≤ fuel

module _ (base : ℕ) (uppercase : Bool) (low : 2 ≤ base) (high : base ≤ 16) where
  shrinks : (fuel n : ℕ) → n < 2 ^ suc fuel → n / base < 2 ^ fuel
  shrinks fuel n h =
      omega (arith, div-add-mod' n base, mul-le-mul_left (n / base) low, pow-suc 2 fuel)

  digits_from_lem :
      (fuel v : ℕ)
      → v < 2 ^ fuel
      → Extracted base uppercase v fuel (digits_from fuel base uppercase v)
  unfolding digits_from
  digits_from_lem zero v h =
      let e : (v == 0) ≡ true = ground arith in
      rw e (record {
        str = [];
        done = refl;
        digits = tt;
        value = ground arith;
        lead = inr refl;
        short = omega arith;
      })
  digits_from_lem (suc fuel) v h = elim (Bool-cases (v == 0)) [
    | inl e ↦ rw e (record {
      str = [];
      done = refl;
      digits = tt;
      value = ground arith;
      lead = inr refl;
      short = omega arith;
    })
    | inr e ↦
        let rest = digits_from_lem fuel (v / base) (shrinks fuel v h) in
        let below : v % base < base = mod-lt v (omega arith) in
        let c = digit_of uppercase (v % base) in
        let split = div-add-mod' v base in
        let read = digit_value-digit_of uppercase (v % base) (omega arith) in
        let last : reversed rest.str ≡ [] → c ≢ 0x30 = λ empty. digit_of-ne uppercase (v % base) (
          let none_left : v / base ≡ 0 = sym rest.value ∙ ap (value_of base 0) empty in
          let product : v / base * base ≡ 0 = ap (λ q. q * base) none_left ∙ omega arith in
          ground (arith, split)) in
        rw e (record {
          str = c ∷ rest.str;
          done = rw rest.done refl;
          digits = DigitsOf-append base uppercase (v % base) (reversed rest.str) rest.digits below;
          value =
              value_of-append base 0 c (reversed rest.str)
              ∙ ap (λ q. q * base + digit_value c) rest.value
              ∙ omega (arith, split, read);
          lead = inl (first-append (reversed rest.str) c last rest.lead);
          short = omega (arith, rest.short);
        })
  ]

-- The same rounds as in kernel/klib/conv.c.
reverse_from_lem : (len k i : ℕ) (str : List ℕ) → reverse_from len k i str ≡ swap_ends len k i str
unfolding reverse_from swap_ends
reverse_from_lem len zero i str = refl
reverse_from_lem len (suc k) i str =
    let e : len - i - 1 ≡ len - 1 - i = omega arith in rw e (reverse_from_lem len k (i + 1) _)

pub reverse_lem : (str : List ℕ) → reverse str ≡ reversed str
unfolding reverse
reverse_lem str = reverse_from_lem (length str) (length str / 2) 0 str ∙ swap_ends-reversed str

-- What the digits of a number other than 0 are, in a base from 2 to 16: the loop ends, and the
-- digits in their order are the numeral.
pub digits-Numeral :
    (base : ℕ) (uppercase : Bool) (v : ℕ)
    → 2 ≤ base
    → base ≤ 16
    → v < 2 ^ 32
    → v ≢ 0
    → (t : List ℕ) × (digits_from 32 base uppercase v ≡ some t)
      × Numeral base uppercase v (reverse t)
digits-Numeral base uppercase v low high word ne =
    let x = digits_from_lem base uppercase low high 32 v word in
    (
      x.str,
      x.done,
      rw (reverse_lem x.str) (record {
        digits = x.digits;
        value = x.value;
        lead = elim x.lead [
          | inl h ↦ h
          | inr empty ↦ absurd (ne (sym x.value ∙ ap (value_of base 0) empty))
        ];
        short = omega (arith, length-reversed x.str, x.short);
      }),
    )
