-- ===== src/Dlist/Insert.antt =====
-- Insertions into the lists of klib/list.h.
use it_works_os.Base.{
  ℕ, ◌≡◌, ◌≢◌, refl, arith, true, false, List, [], ◌∷◌, ◌++◌, if◌then◌else◌, ◌==◌,
}
use it_works_os.Dlist.Chain.{
  ne_of_has, splice-IsList, has, last_or, first_or, IsList, has-append, has-last_or, has-first_or,
  Forth-gap, Back-gap, Distinct_insert, IsList-frame,
}
use it_works_os.Dlist.{Links, list_init, list_insert_after, list_insert_before}

module _ (l l' : Links) (head : ℕ) (xs ys : List ℕ) (new : ℕ) (is : IsList l head (xs ++ ys))
    (fresh : has new (head ∷ (xs ++ ys)) ≡ false) (new_ne : new ≢ 0)
    (next_eq : (c : ℕ)
      → l'.next c
        ≡ (if c == last_or head xs then new else if c == new then first_or ys head else l.next c))
    (prev_eq : (c : ℕ)
      → l'.prev c ≡ (
          if c == first_or ys head
          then new
          else if c == new
          then last_or head xs
          else l.prev c)) where
  -- The node after `xs` is new, the other links are as they were.
  gap-IsList : IsList l' head (xs ++ (new ∷ ys))
  gap-IsList =
      let p = last_or head xs in
      let q = first_or ys head in
      let new_p : new ≢ p =
        ne_of_has new p (head ∷ (xs ++ ys)) fresh
          (ground (arith, has-append p xs ys, has-last_or head xs)) in
      let new_q : new ≢ q =
        ne_of_has new q (head ∷ (xs ++ ys)) fresh
          (ground (arith, has-append q xs ys, has-first_or head ys)) in
      splice-IsList l l' head xs [] (new ∷ []) ys is is.distinct
        (Distinct_insert (head ∷ xs) ys new is.distinct fresh)
        (ground (arith, is.not_null, has-append 0 xs ys, has-append 0 xs (new ∷ ys)))
        (λ c h ne. ground (arith, next_eq c, ne_of_has new c (head ∷ (xs ++ ys)) fresh h))
        (λ c h ne. ground (arith, prev_eq c, ne_of_has new c (head ∷ (xs ++ ys)) fresh h))
        (ground (arith, next_eq p), ground (arith, next_eq new))
        (ground (arith, prev_eq new), ground (arith, prev_eq q))

-- Another list, with no node in common.
abbrev pub Disjoint : List ℕ → List ℕ → Type 0
Disjoint zs xs = (c : ℕ) → has c zs ≡ true → has c xs ≡ false

-- The links of `l'` are those of `l`, but at the nodes `xs`.
abbrev pub SameOutside : List ℕ → Links → Links → Type 0
SameOutside xs l l' = (c : ℕ) → has c xs ≡ false → (l'.next c ≡ l.next c) × (l'.prev c ≡ l.prev c)

-- A list with no node among those that are written stays as it is.
pub Disjoint-IsList :
    (l l' : Links) (xs : List ℕ) (other : ℕ) (zs : List ℕ)
    → SameOutside xs l l'
    → Disjoint (other ∷ zs) xs
    → IsList l other zs
    → IsList l' other zs
Disjoint-IsList l l' xs other zs same off is = IsList-frame other zs (λ c h. same c (off c h)) is

module _ (l : Links) (head : ℕ) (xs ys : List ℕ) (new : ℕ) (is : IsList l head (xs ++ ys))
    (fresh : has new (head ∷ (xs ++ ys)) ≡ false) (new_ne : new ≢ 0) where
  new-ne : (c : ℕ) → has c (head ∷ (xs ++ ys)) ≡ true → new ≢ c
  new-ne c = ne_of_has new c (head ∷ (xs ++ ys)) fresh

  new-ne-last : new ≢ last_or head xs
  new-ne-last =
      new-ne (last_or head xs)
        (ground (arith, has-append (last_or head xs) xs ys, has-last_or head xs))

  new-ne-first : new ≢ first_or ys head
  new-ne-first =
      new-ne (first_or ys head)
        (ground (arith, has-append (first_or ys head) xs ys, has-first_or head ys))

  pub list_insert_after-IsList :
      IsList (list_insert_after l (last_or head xs) new) head (xs ++ (new ∷ ys))
      × SameOutside (new ∷ head ∷ (xs ++ ys)) l (list_insert_after l (last_or head xs) new)
  unfolding list_insert_after
  list_insert_after-IsList =
      let p = last_or head xs in
      let gap = Forth-gap l.next head head xs ys is.forth in
      let at_p : has p (head ∷ (xs ++ ys)) ≡ true =
        ground (arith, has-append p xs ys, has-last_or head xs) in
      let at_q : has (first_or ys head) (head ∷ (xs ++ ys)) ≡ true =
        ground (arith, has-append (first_or ys head) xs ys, has-first_or head ys) in
      (
        gap-IsList l (list_insert_after l p new) head xs ys new is fresh new_ne
            (λ c. ground (arith, gap, new-ne-last))
            (λ c. ground (arith, gap, new-ne-last, new-ne-first)),
        λ c out. (
          ground (arith, gap, ne_of_has c p (head ∷ (xs ++ ys)) (ground arith) at_p),
          ground
              (arith, gap, ne_of_has c (first_or ys head) (head ∷ (xs ++ ys)) (ground arith) at_q),
        ),
      )

  pub list_insert_before-IsList :
      IsList (list_insert_before l (first_or ys head) new) head (xs ++ (new ∷ ys))
      × SameOutside (new ∷ head ∷ (xs ++ ys)) l (list_insert_before l (first_or ys head) new)
  unfolding list_insert_before
  list_insert_before-IsList =
      let p = last_or head xs in
      let q = first_or ys head in
      let gap = Back-gap l.prev head head xs ys is.back in
      let at_p : has p (head ∷ (xs ++ ys)) ≡ true =
        ground (arith, has-append p xs ys, has-last_or head xs) in
      let at_q : has q (head ∷ (xs ++ ys)) ≡ true =
        ground (arith, has-append q xs ys, has-first_or head ys) in
      (
        gap-IsList l (list_insert_before l q new) head xs ys new is fresh new_ne
            (λ c. ground (arith, gap, new-ne-last, new-ne-first))
            (λ c. ground (arith, gap, new-ne-first)),
        λ c out. (
          ground (arith, gap, ne_of_has c p (head ∷ (xs ++ ys)) (ground arith) at_p),
          ground (arith, gap, ne_of_has c q (head ∷ (xs ++ ys)) (ground arith) at_q),
        ),
      )

-- An empty list, whatever the links were; the links of other nodes are as before.
pub list_init-IsList :
    (l : Links) (head : ℕ)
    → head ≢ 0
    → IsList (list_init l head) head [] × SameOutside (head ∷ []) l (list_init l head)
unfolding list_init
list_init-IsList l head ne = (
  record {
    forth = ground arith;
    back = ground arith;
    distinct = (refl, tt);
    not_null = ground arith;
  },
  λ c h. (ground arith, ground arith),
)
