-- ===== src/Dlist/Remove.antt =====
-- Removals from the lists of klib/list.h, and the replacement of a node.
use it_works_os.Base.{ℕ, ◌≡◌, ◌≢◌, arith, true, false, List, [], ◌∷◌, ◌++◌}
use it_works_os.Dlist.Chain.{
  ne_of_has, splice-IsList, has, Distinct, last_or, first_or, IsList, has-append, has-last_or,
  has-first_or, Forth-tail, Back-tail, Forth-gap, Back-gap, Distinct_insert, Distinct_remove,
}
use it_works_os.Dlist.Insert.{SameOutside}
use it_works_os.Dlist.{Links, list_remove, list_replace}

module _ (l : Links) (head : ℕ) (xs : List ℕ) (n : ℕ) (ys : List ℕ)
    (is : IsList l head (xs ++ (n ∷ ys))) where
  -- The links around the node.
  before : (l.next (last_or head xs) ≡ n) × (l.next n ≡ first_or ys head)
  before =
      let (e, r) = Forth-tail l.next head head xs (n ∷ ys) is.forth in
      (e, Forth-gap l.next n head [] ys r)

  behind : (l.prev n ≡ last_or head xs) × (l.prev (first_or ys head) ≡ n)
  behind =
      let (e, r) = Back-tail l.prev head head xs (n ∷ ys) is.back in
      (e, Back-gap l.prev n head [] ys r)

  rest : Distinct (head ∷ (xs ++ ys)) × (has n (head ∷ (xs ++ ys)) ≡ false)
  rest = Distinct_remove (head ∷ xs) ys n is.distinct

  at_p : has (last_or head xs) (head ∷ (xs ++ ys)) ≡ true
  at_p = ground (arith, has-append (last_or head xs) xs ys, has-last_or head xs)

  at_q : has (first_or ys head) (head ∷ (xs ++ ys)) ≡ true
  at_q = ground (arith, has-append (first_or ys head) xs ys, has-first_or head ys)

  n-ne : (c : ℕ) → has c (head ∷ (xs ++ ys)) ≡ true → n ≢ c
  n-ne c = ne_of_has n c (head ∷ (xs ++ ys)) rest.1

  pub list_remove-IsList :
      IsList (list_remove l n) head (xs ++ ys)
      × ((list_remove l n).next n ≡ 0)
      × ((list_remove l n).prev n ≡ 0)
      × SameOutside (n ∷ head ∷ (xs ++ ys)) l (list_remove l n)
  unfolding list_remove
  list_remove-IsList =
      let p = last_or head xs in
      let q = first_or ys head in
      (
        splice-IsList l (list_remove l n) head xs (n ∷ []) [] ys is rest.0 rest.0
            (ground (arith, is.not_null, has-append 0 xs ys, has-append 0 xs (n ∷ ys)))
            (λ c h ne. ground (arith, behind, n-ne c h))
            (λ c h ne. ground (arith, before, behind, n-ne c h, n-ne p at_p))
            (ground (arith, before, behind, n-ne p at_p))
            (ground (arith, before, behind, n-ne p at_p, n-ne q at_q)),
        ground arith,
        ground arith,
        λ c out. (
          ground (arith, behind, ne_of_has c p (head ∷ (xs ++ ys)) (ground arith) at_p),
          ground (
            arith,
            before,
            behind,
            n-ne p at_p,
            ne_of_has c q (head ∷ (xs ++ ys)) (ground arith) at_q,
          ),
        ),
      )

  module _ (new : ℕ) (fresh : has new (n ∷ head ∷ (xs ++ ys)) ≡ false) (new_ne : new ≢ 0) where
    new-ne : (c : ℕ) → has c (head ∷ (xs ++ ys)) ≡ true → new ≢ c
    new-ne c = ne_of_has new c (head ∷ (xs ++ ys)) (ground arith)

    pub list_replace-IsList :
        IsList (list_replace l n new) head (xs ++ (new ∷ ys))
        × ((list_replace l n new).next n ≡ 0)
        × ((list_replace l n new).prev n ≡ 0)
        × SameOutside (new ∷ n ∷ head ∷ (xs ++ ys)) l (list_replace l n new)
    unfolding list_replace
    list_replace-IsList =
        let p = last_or head xs in
        let q = first_or ys head in
        (
          splice-IsList l (list_replace l n new) head xs (n ∷ []) (new ∷ []) ys is rest.0
              (Distinct_insert (head ∷ xs) ys new rest.0 (ground arith))
              (ground (arith, is.not_null, has-append 0 xs (new ∷ ys), has-append 0 xs (n ∷ ys)))
              (λ c h ne. ground (arith, before, behind, n-ne c h, new-ne c h, new-ne p at_p))
              (λ c h ne. ground (arith, before, behind, n-ne c h, new-ne c h, n-ne p at_p))
              (
                ground (arith, before, behind, n-ne p at_p, new-ne p at_p),
                ground (arith, before, behind, n-ne p at_p, new-ne p at_p, fresh),
              )
              (
                ground (arith, before, behind, n-ne p at_p, n-ne q at_q, new-ne q at_q, fresh),
                ground (arith, before, behind, n-ne p at_p, n-ne q at_q, new-ne q at_q, fresh),
              ),
          ground arith,
          ground arith,
          λ c out. (
            ground (arith, before, behind, ne_of_has c p (head ∷ (xs ++ ys)) (ground arith) at_p),
            ground (
              arith,
              before,
              behind,
              n-ne p at_p,
              ne_of_has c q (head ∷ (xs ++ ys)) (ground arith) at_q,
            ),
          ),
        )
