-- ===== src/Strings/Compare.antt =====
-- `strcmp` and `strncmp` of kernel/klib/string.c as tests of equality.
use it_works_os.Base.{
  ℕ, zero, suc, ◌≡◌, ◌≢◌, ◌↔◌, refl, arith, inl, inr, true, List, [], ◌∷◌, ◌==◌, take, Bool-cases,
}
use it_works_os.Base.Int.{pos}
use it_works_os.Strings.{difference, strcmp, strncmp}

-- No byte of a string is 0.
abbrev pub IsString : List ℕ → Type 0
IsString [] = Unit
IsString (x ∷ xs) = (x ≢ 0) × IsString xs

difference-ne : (x y : ℕ) → x ≢ y → difference x y ≢ pos 0
unfolding difference
difference-ne x y ne e = ground arith

strcmp_refl : (xs : List ℕ) → strcmp xs xs ≡ pos 0
unfolding strcmp
strcmp_refl [] = refl
strcmp_refl (x ∷ xs) = let e : (x == x) ≡ true = ground arith in rw e (strcmp_refl xs)

strcmp-eq : (xs ys : List ℕ) → IsString xs → IsString ys → strcmp xs ys ≡ pos 0 → xs ≡ ys
unfolding strcmp
strcmp-eq [] [] s t e = refl
strcmp-eq [] (y ∷ ys) s (n, t) e = absurd (difference-ne 0 y (λ z. ground arith) e)
strcmp-eq (x ∷ xs) [] (n, s) t e = absurd (difference-ne x 0 (λ z. ground arith) e)
strcmp-eq (x ∷ xs) (y ∷ ys) (n, s) (m, t) e = elim (Bool-cases (x == y)) [
  | inl same ↦
      let h : x ≡ y = ground arith in
      let rest = strcmp-eq xs ys s t (rw same at e) in rw (h, rest) refl
  | inr other ↦ absurd (difference-ne x y (λ h. ground arith) (rw other at e))
]

-- `strncmp` looks at the first `n` bytes alone.
strncmp-take : (n : ℕ) (xs ys : List ℕ) → strncmp xs ys n ≡ strcmp (take n xs) (take n ys)
unfolding strcmp strncmp
strncmp-take zero xs ys = refl
strncmp-take (suc n) [] [] = refl
strncmp-take (suc n) [] (y ∷ ys) = refl
strncmp-take (suc n) (x ∷ xs) [] = refl
strncmp-take (suc n) (x ∷ xs) (y ∷ ys) = rw (strncmp-take n xs ys) refl

IsString-take : (n : ℕ) (xs : List ℕ) → IsString xs → IsString (take n xs)
IsString-take zero xs s = tt
IsString-take (suc n) [] s = tt
IsString-take (suc n) (x ∷ xs) (h, s) = (h, IsString-take n xs s)

-- `strcmp` of two strings is 0 exactly if they are equal, and `strncmp` exactly if their first `n`
-- bytes are, or all of them where there are fewer.
pub strncmp_lem :
    (xs ys : List ℕ) (n : ℕ)
    → IsString xs
    → IsString ys
    → (strcmp xs ys ≡ pos 0 ↔ xs ≡ ys) × (strncmp xs ys n ≡ pos 0 ↔ take n xs ≡ take n ys)
strncmp_lem xs ys n s t = (
  (strcmp-eq xs ys s t, λ e. rw e (strcmp_refl ys)),
  rw (strncmp-take n xs ys) (
    strcmp-eq (take n xs) (take n ys) (IsString-take n xs s) (IsString-take n ys t),
    λ e. rw e (strcmp_refl (take n ys)),
  ),
)
