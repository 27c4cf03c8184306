-- ===== src/Dlist/Walk.antt =====
-- The loops list_for_each and list_for_each_safe of klib/list.h.
use mathlib.Core.List.{append_assoc}
use mathlib.Core.Path.{subst}
use it_works_os.Base.{
  ℕ, zero, suc, ◌<◌, ◌≡◌, sym, arith, inl, inr, Bool, false, some, List, [], ◌∷◌, ◌++◌,
  if◌then◌else◌, ◌==◌, Bool-cases, length,
}
use it_works_os.Dlist.Chain.{has, first_or, Forth, IsList, has-append, Forth-tail, Forth-gap}
use it_works_os.Dlist.Remove.{list_remove-IsList}
use it_works_os.Dlist.{Links, list_remove, each_from, list_for_each, safe_from, list_for_each_safe}

abbrev pub fold : {S : Type 0} → (S → ℕ → S) → S → List ℕ → S
fold body s [] = s
fold body s (x ∷ xs) = fold body (body s x) xs

module _ {S : Type 0} (l : Links) (head : ℕ) (body : S → ℕ → S) where
  each_from_lem :
      (fuel a : ℕ) (xs : List ℕ) (s : S)
      → Forth l.next a xs head
      → has head xs ≡ false
      → length xs < fuel
      → each_from fuel l head body (l.next a) s ≡ some (fold body s xs)
  unfolding each_from
  each_from_lem zero a xs s r out h = absurd (omega arith)
  each_from_lem (suc fuel) a [] s r out h = rw r (ground arith)
  each_from_lem (suc fuel) a (x ∷ xs) s (e, r) out h =
      let ne : (x == head) ≡ false = ground arith in
      rw (e, ne) (each_from_lem fuel x xs (body s x) r (ground arith) (omega arith))

  -- The loop visits every node once, from front to back.
  pub list_for_each_lem :
      (fuel : ℕ) (xs : List ℕ) (s : S)
      → IsList l head xs
      → length xs < fuel
      → list_for_each fuel l head body s ≡ some (fold body s xs)
  unfolding list_for_each
  list_for_each_lem fuel xs s is h = each_from_lem fuel head xs s is.forth is.distinct.0 h

abbrev pub keep_nodes : (ℕ → Bool) → List ℕ → List ℕ
keep_nodes keep [] = []
keep_nodes keep (x ∷ xs) = let rest = keep_nodes keep xs in if keep x then x ∷ rest else rest

-- The body of a loop that removes the nodes which it does not keep.
abbrev pub removing : (ℕ → Bool) → Links → ℕ → Links
removing keep l node = if keep node then l else list_remove l node

module _ (head : ℕ) (keep : ℕ → Bool) where
  safe_from_lem :
      (fuel : ℕ) (xs ys : List ℕ) (l : Links)
      → IsList l head (xs ++ ys)
      → length ys < fuel
      → (l' : Links) × (safe_from fuel head
            (removing keep)
            (first_or ys head)
            (l.next (first_or ys head))
            l
          ≡ some l')
        × IsList l' head (xs ++ keep_nodes keep ys)
  unfolding safe_from
  safe_from_lem zero xs ys l is h = absurd (omega arith)
  safe_from_lem (suc fuel) xs [] l is h = (l, ground arith, is)
  safe_from_lem (suc fuel) xs (y ∷ ys) l is h =
      let tail = Forth-tail l.next head head xs (y ∷ ys) is.forth in
      let next : l.next y ≡ first_or ys head = Forth-gap l.next y head [] ys tail.1 in
      let ne : (y == head) ≡ false = ground (arith, is.distinct.0, has-append head xs (y ∷ ys)) in
      elim (Bool-cases (keep y)) [
        | inl e ↦
            let same : (zs : List ℕ) → (xs ++ (y ∷ zs)) ≡ ((xs ++ (y ∷ [])) ++ zs) =
              λ zs. sym (append_assoc xs (y ∷ []) zs) in
            let (l', run, is') =
              safe_from_lem fuel (xs ++ (y ∷ [])) ys l (subst (IsList l head) (same ys) is)
                (omega arith) in
            (
              l',
              rw (e, ne, next) run,
              rw e (subst (IsList l' head) (sym (same (keep_nodes keep ys))) is'),
            )
        | inr e ↦
            let (l', run, is') =
              safe_from_lem fuel xs ys (list_remove l y) (list_remove-IsList l head xs y ys is).0
                (omega arith) in
            (l', rw (e, ne, next) run, rw e is')
      ]

-- list_for_each_safe ends when the body removes nodes, visits all of them and leaves exactly
-- those that are kept, in their order.
pub list_for_each_safe_lem :
    (fuel head : ℕ) (keep : ℕ → Bool) (xs : List ℕ) (l : Links)
    → IsList l head xs
    → length xs < fuel
    → (l' : Links) × (list_for_each_safe fuel head (removing keep) l ≡ some l')
      × IsList l' head (keep_nodes keep xs)
unfolding list_for_each_safe
list_for_each_safe_lem fuel head keep xs l is h =
    let first : l.next head ≡ first_or xs head = Forth-gap l.next head head [] xs is.forth in
    rw first (safe_from_lem head keep fuel [] xs l is h)
