-- ===== src/Conv/Swap.antt =====
-- The loop that swaps the ends of a string, in `conv_itoa` of kernel/klib/conv.c, reverses it.
use it_works_os.Base.{
  ℕ, zero, suc, ◌+◌, ◌-◌, ◌/◌, ◌≤◌, ◌<◌, ◌≡◌, refl, ap, sym, ◌∙◌, arith, ◌&&◌, ◌||◌, List, [], ◌∷◌,
  ◌++◌, length, length-append, length-set, get_or, set, get_or-set_self, get_or-set_ne,
  if◌then◌else◌, ◌==◌, ltb, leb, inl, inr, Bool-cases,
}
use it_works_os.Conv.{swap_ends}

abbrev pub reversed : List ℕ → List ℕ
reversed [] = []
reversed (x ∷ xs) = reversed xs ++ (x ∷ [])

pub length-reversed : (xs : List ℕ) → length (reversed xs) ≡ length xs
length-reversed [] = refl
length-reversed (x ∷ xs) = omega (arith, length-append (reversed xs) (x ∷ []), length-reversed xs)

get_or-append :
    (xs ys : List ℕ) (i : ℕ)
    → get_or (xs ++ ys) i 0
      ≡ (if ltb i (length xs) then get_or xs i 0 else get_or ys (i - length xs) 0)
get_or-append [] ys i = ground arith
get_or-append (x ∷ xs) ys zero = ground arith
get_or-append (x ∷ xs) ys (suc i) = ground (arith, get_or-append xs ys i)

get_or-reversed :
    (xs : List ℕ) (i : ℕ)
    → i < length xs
    → get_or (reversed xs) i 0 ≡ get_or xs (length xs - 1 - i) 0
get_or-reversed [] i h = absurd (omega arith)
get_or-reversed (x ∷ xs) i h = elim (Bool-cases (ltb i (length xs))) [
  | inl e ↦
      let below : length xs - i ≡ suc (length xs - 1 - i) = ground arith in
      let up : suc (length xs) - 1 - i ≡ suc (length xs - 1 - i) = ground arith in
      rw up (
        ground (
          arith,
          get_or-append (reversed xs) (x ∷ []) i,
          length-reversed xs,
          get_or-reversed xs i (ground arith),
        ))
  | inr e ↦
      let here : suc (length xs) - 1 - i ≡ 0 = ground arith in
      let last : i - length (reversed xs) ≡ 0 = ground (arith, length-reversed xs) in
      rw here
        (rw last at (get_or-append (reversed xs) (x ∷ []) i) ∙ ground (arith, length-reversed xs))
]

same_elements :
    (xs ys : List ℕ)
    → length xs ≡ length ys
    → ((i : ℕ) → i < length xs → get_or xs i 0 ≡ get_or ys i 0)
    → xs ≡ ys
same_elements [] [] e h = refl
same_elements [] (y ∷ ys) e h = absurd (omega arith)
same_elements (x ∷ xs) [] e h = absurd (omega arith)
same_elements (x ∷ xs) (y ∷ ys) e h =
    let first : x ≡ y = h 0 (omega arith) in
    rw first
      (ap (λ l. y ∷ l) (same_elements xs ys (omega arith) (λ i less. h (suc i) (omega arith))))

pub length-swap_ends : (n k i : ℕ) (str : List ℕ) → length (swap_ends n k i str) ≡ length str
unfolding swap_ends
length-swap_ends n zero i str = refl
length-swap_ends n (suc k) i str =
    length-swap_ends n k (i + 1) _ ∙ length-set _ (n - 1 - i) _ ∙ length-set str i _

-- One round.
swap-one :
    (n i j a b : ℕ) (str : List ℕ)
    → length str ≡ n
    → i < n - 1 - i
    → get_or (set (set str i a) (n - 1 - i) b) j 0
      ≡ (if j == i then a else if j == n - 1 - i then b else get_or str j 0)
swap-one n i j a b str e h = elim (Bool-cases (j == n - 1 - i)) [
  | inl last ↦
      let there : j ≡ n - 1 - i = ground arith in
      rw there (
        get_or-set_self (set str i a) (n - 1 - i) b 0 (omega (arith, length-set str i a))
        ∙ ground arith)
  | inr other ↦
      get_or-set_ne (set str i a) (n - 1 - i) j b 0 (ground arith) ∙ elim (Bool-cases (j == i)) [
        | inl first ↦
            let here : j ≡ i = ground arith in
            rw here (get_or-set_self str i a 0 (omega arith) ∙ ground arith)
        | inr rest ↦ get_or-set_ne str i j a 0 (ground arith) ∙ ground arith
      ]
]

swap_ends-get :
    (n k i j : ℕ) (str : List ℕ)
    → length str ≡ n
    → i + k ≤ n / 2
    → j < n
    → get_or (swap_ends n k i str) j 0 ≡ (
        if (leb i j && ltb j (i + k)) || (leb (n - i - k) j && ltb j (n - i))
        then get_or str (n - 1 - j) 0
        else get_or str j 0)
unfolding swap_ends
swap_ends-get n zero i j str e h less = ground arith
swap_ends-get n (suc k) i j str e h less =
    let a = get_or str (n - 1 - i) 0 in
    let b = get_or str i 0 in
    swap_ends-get n k (i + 1) j _ (length-set _ (n - 1 - i) b ∙ length-set str i a ∙ e)
      (omega arith) less
    ∙ elim (Bool-cases (j == i)) [
      | inl first ↦
          let here : j ≡ i = ground arith in
          rw here (ground (arith, swap-one n i i a b str e (omega arith)))
      | inr later ↦ elim (Bool-cases (j == n - 1 - i)) [
        | inl last ↦
            let here : j ≡ n - 1 - i = ground arith in
            let back : n - 1 - (n - 1 - i) ≡ i = omega arith in
            rw (here, back) (ground (arith, swap-one n i (n - 1 - i) a b str e (omega arith)))
        | inr inner ↦ ground (
          arith,
          swap-one n i j a b str e (omega arith),
          swap-one n i (n - 1 - j) a b str e (omega arith),
        )
      ]
    ]

-- The middle of a string of odd length stays where it is.
pub swap_ends-reversed :
    (str : List ℕ) → swap_ends (length str) (length str / 2) 0 str ≡ reversed str
swap_ends-reversed str =
    same_elements _ (reversed str)
      (length-swap_ends (length str) (length str / 2) 0 str ∙ sym (length-reversed str))
      (λ i less.
        let inside : i < length str =
          omega (arith, length-swap_ends (length str) (length str / 2) 0 str) in
        swap_ends-get (length str) (length str / 2) 0 i str refl (omega arith) inside
        ∙ elim (Bool-cases (i == length str - 1 - i)) [
          | inl mid ↦
              let here : length str - 1 - i ≡ i = ground arith in
              rw here (ground arith) ∙ sym (rw here at (get_or-reversed str i inside))
          | inr off ↦ ground (arith, get_or-reversed str i inside)
        ])
