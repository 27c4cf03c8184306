-- ===== src/Dlist/Deque.antt =====
-- The ends of the lists of klib/list.h: a double-ended queue of nodes.
use mathlib.Core.List.{append-nil}
use mathlib.Core.Path.{subst}
use it_works_os.Base.{ℕ, ◌≡◌, ◌≢◌, refl, sym, arith, true, false, List, [], ◌∷◌, ◌++◌, ◌==◌}
use it_works_os.Dlist.Chain.{ne_of_has, has, last_or, first_or, IsList, Back-gap}
use it_works_os.Dlist.Insert.{list_insert_after-IsList, list_insert_before-IsList}
use it_works_os.Dlist.Remove.{list_remove-IsList}
use it_works_os.Dlist.{
  Links, list_empty, list_front, list_back, list_insert_front, list_insert_back, list_remove,
  list_pop_front, list_pop_back,
}

abbrev pub tail : List ℕ → List ℕ
tail [] = []
tail (x ∷ xs) = xs

-- All nodes but the last.
abbrev pub init : List ℕ → List ℕ
init [] = []
init (x ∷ []) = []
init (x ∷ (y ∷ ys)) = x ∷ init (y ∷ ys)

snoc : (x : ℕ) (xs : List ℕ) → (x ∷ xs) ≡ (init (x ∷ xs) ++ (last_or x xs ∷ []))
snoc x [] = refl
snoc x (y ∷ ys) = λ i. x ∷ snoc y ys i

abbrev pub Ends : Links → ℕ → List ℕ → Type 0
Ends l head xs =
    (list_empty l head ≡ elim xs [ [] ↦ true | _ ∷ _ ↦ false ])
    × (list_front l head ≡ first_or xs 0)
    × (list_back l head ≡ last_or 0 xs)

last_lem : (l : Links) (head : ℕ) (xs : List ℕ) → IsList l head xs → l.prev head ≡ last_or head xs
last_lem l head xs is =
    let same : IsList l head (xs ++ []) = rw append-nil is in
    Back-gap l.prev head head xs [] same.back

ends : (l : Links) (head : ℕ) (xs : List ℕ) → IsList l head xs → Ends l head xs
unfolding list_empty list_front list_back
ends l head [] is = ground (arith, is.forth)
ends l head (x ∷ xs) is =
    let e : l.next head ≡ x = is.forth.0 in
    let ne : x ≢ head = λ q. ne_of_has head x (x ∷ xs) is.distinct.0 (ground arith) (sym q) in
    ground (arith, e, ne, last_lem l head (x ∷ xs) is)

pop_front_lem :
    (l : Links) (head : ℕ) (xs : List ℕ)
    → IsList l head xs
    → ((list_pop_front l head).0 ≡ first_or xs 0) × IsList (list_pop_front l head).1 head (tail xs)
unfolding list_pop_front list_empty
pop_front_lem l head [] is = rw is.forth (ground arith)
pop_front_lem l head (x ∷ xs) is =
    let e : l.next head ≡ x = is.forth.0 in
    let ne : (x == head) ≡ false =
      ground (arith, ne_of_has head x (x ∷ xs) is.distinct.0 (ground arith)) in
    rw (e, ne) (refl, (list_remove-IsList l head [] x xs is).0)

pop_back_lem :
    (l : Links) (head : ℕ) (xs : List ℕ)
    → IsList l head xs
    → ((list_pop_back l head).0 ≡ last_or 0 xs) × IsList (list_pop_back l head).1 head (init xs)
unfolding list_pop_back list_empty
pop_back_lem l head [] is = rw is.forth (ground arith)
pop_back_lem l head (x ∷ xs) is =
    let e : l.next head ≡ x = is.forth.0 in
    let ne : (x == head) ≡ false =
      ground (arith, ne_of_has head x (x ∷ xs) is.distinct.0 (ground arith)) in
    let end : l.prev head ≡ last_or x xs = last_lem l head (x ∷ xs) is in
    let parts : IsList l head (init (x ∷ xs) ++ (last_or x xs ∷ [])) =
      subst (λ ys. IsList l head ys) (snoc x xs) is in
    let less = (list_remove-IsList l head (init (x ∷ xs)) (last_or x xs) [] parts).0 in
    let less' : IsList (list_remove l (last_or x xs)) head (init (x ∷ xs)) =
      subst (λ ys. IsList (list_remove l (last_or x xs)) head ys) (append-nil _) less in
    rw (e, ne, end) (refl, less')

-- On a list whose sentinel holds the nodes `xs`, list_empty says whether there are none,
-- list_front and list_back return the first and the last node or NULL, list_insert_front and
-- list_insert_back put a fresh node before and behind them, list_pop_front and list_pop_back
-- return the first and the last node, or NULL, and leave the others in their order.
pub deque_lem :
    (l : Links) (head : ℕ) (xs : List ℕ) (new : ℕ)
    → IsList l head xs
    → has new (head ∷ xs) ≡ false
    → new ≢ 0
    → Ends l head xs
      × IsList (list_insert_front l head new) head (new ∷ xs)
      × IsList (list_insert_back l head new) head (xs ++ (new ∷ []))
      × ((list_pop_front l head).0 ≡ first_or xs 0)
      × IsList (list_pop_front l head).1 head (tail xs)
      × ((list_pop_back l head).0 ≡ last_or 0 xs)
      × IsList (list_pop_back l head).1 head (init xs)
unfolding list_insert_front list_insert_back
deque_lem l head xs new is fresh new_ne =
    let (f, front) = pop_front_lem l head xs is in
    let (b, back) = pop_back_lem l head xs is in
    let same : IsList l head (xs ++ []) = rw append-nil is in
    (
      ends l head xs is,
      (list_insert_after-IsList l head [] xs new is fresh new_ne).0,
      (list_insert_before-IsList l head xs [] new same (rw append-nil fresh) new_ne).0,
      f,
      front,
      b,
      back,
    )
