-- ===== src/Dlist/Chain.antt =====
-- What a list of klib/list.h stands for: the nodes in their order. One lemma replaces a piece in
-- the middle of a chain, for all the operations.
use it_works_os.Base.{
  ℕ, ◌≡◌, ◌≢◌, refl, ap, sym, ◌∙◌, arith, inl, inr, Bool, true, false, ◌||◌, List, [], ◌∷◌, ◌++◌,
  ◌==◌, ==_iff, Bool-cases,
}
use it_works_os.Dlist.{Links}

abbrev pub has : ℕ → List ℕ → Bool
has a [] = false
has a (x ∷ xs) = (a == x) || has a xs

abbrev pub Distinct : List ℕ → Type 0
Distinct [] = Unit {0}
Distinct (x ∷ xs) = (has x xs ≡ false) × Distinct xs

abbrev pub last_or : ℕ → List ℕ → ℕ
last_or a [] = a
last_or a (x ∷ xs) = last_or x xs

abbrev pub first_or : List ℕ → ℕ → ℕ
first_or [] b = b
first_or (y ∷ ys) b = y

-- `f` leads from `a` through the nodes to `b`.
abbrev pub Forth : (ℕ → ℕ) → ℕ → List ℕ → ℕ → Type 0
Forth f a [] b = f a ≡ b
Forth f a (x ∷ xs) b = (f a ≡ x) × Forth f x xs b

-- `f` leads from `b` back through the nodes to `a`.
abbrev pub Back : (ℕ → ℕ) → ℕ → List ℕ → ℕ → Type 0
Back f a [] b = f b ≡ a
Back f a (x ∷ xs) b = (f x ≡ a) × Back f x xs b

-- The list of the sentinel `head` holds the nodes `xs`, in this order.
pub record IsList (l : Links) (head : ℕ) (xs : List ℕ) : Type 0 where
  pub forth : Forth l.next head xs head
  pub back : Back l.prev head xs head
  pub distinct : Distinct (head ∷ xs)
  pub not_null : has 0 (head ∷ xs) ≡ false

pub has-append : (a : ℕ) (xs ys : List ℕ) → has a (xs ++ ys) ≡ (has a xs || has a ys)
has-append a [] ys = refl
has-append a (x ∷ xs) ys = ground (arith, has-append a xs ys)

pub has-last_or : (a : ℕ) (xs : List ℕ) → has (last_or a xs) (a ∷ xs) ≡ true
has-last_or a [] = ground arith
has-last_or a (x ∷ xs) = ground (arith, has-last_or x xs)

pub has-first_or : (b : ℕ) (ys : List ℕ) → has (first_or ys b) (b ∷ ys) ≡ true
has-first_or b [] = ground arith
has-first_or b (y ∷ ys) = ground arith

module _ {f g : ℕ → ℕ} where
  -- A chain that no write touches.
  pub Forth-frame :
      (a b : ℕ) (ys : List ℕ)
      → ((c : ℕ) → has c (a ∷ ys) ≡ true → g c ≡ f c)
      → Forth f a ys b
      → Forth g a ys b
  Forth-frame a b [] same e = same a (ground arith) ∙ e
  Forth-frame a b (y ∷ ys) same (e, r) =
      (same a (ground arith) ∙ e, Forth-frame y b ys (λ c h. same c (ground arith)) r)

  pub Back-frame :
      (a b : ℕ) (ys : List ℕ)
      → ((c : ℕ) → has c (b ∷ ys) ≡ true → g c ≡ f c)
      → Back f a ys b
      → Back g a ys b
  Back-frame a b [] same e = same b (ground arith) ∙ e
  Back-frame a b (y ∷ ys) same (e, r) =
      (same y (ground arith) ∙ e, Back-frame y b ys (λ c h. same c (ground arith)) r)

-- The part behind a node.
pub Forth-tail :
    (f : ℕ → ℕ) (a b : ℕ) (ms ys : List ℕ) → Forth f a (ms ++ ys) b → Forth f (last_or a ms) ys b
Forth-tail f a b [] ys r = r
Forth-tail f a b (m ∷ ms) ys (_, r) = Forth-tail f m b ms ys r

pub Back-tail :
    (f : ℕ → ℕ) (a b : ℕ) (ms ys : List ℕ) → Back f a (ms ++ ys) b → Back f (last_or a ms) ys b
Back-tail f a b [] ys r = r
Back-tail f a b (m ∷ ms) ys (_, r) = Back-tail f m b ms ys r

-- The nodes on the two sides of a gap point to each other.
pub Forth-gap :
    (f : ℕ → ℕ) (a b : ℕ) (xs ys : List ℕ)
    → Forth f a (xs ++ ys) b
    → f (last_or a xs) ≡ first_or ys b
Forth-gap f a b [] [] r = r
Forth-gap f a b [] (y ∷ ys) (e, _) = e
Forth-gap f a b (x ∷ xs) ys (_, r) = Forth-gap f x b xs ys r

pub Back-gap :
    (f : ℕ → ℕ) (a b : ℕ) (xs ys : List ℕ)
    → Back f a (xs ++ ys) b
    → f (first_or ys b) ≡ last_or a xs
Back-gap f a b [] [] r = r
Back-gap f a b [] (y ∷ ys) (e, _) = e
Back-gap f a b (x ∷ xs) ys (_, r) = Back-gap f x b xs ys r

pub ne_of_has : (a c : ℕ) (xs : List ℕ) → has a xs ≡ false → has c xs ≡ true → a ≢ c
ne_of_has a c xs h k e = cc

Forth-join :
    (f g : ℕ → ℕ) (a c b : ℕ) (ms ys : List ℕ)
    → Forth g a ms (first_or ys b)
    → ((k : ℕ) → has k ys ≡ true → g k ≡ f k)
    → Forth f c ys b
    → Forth g a (ms ++ ys) b
Forth-join f g a c b [] [] e same r = e
Forth-join f g a c b [] (y ∷ ys) e same (_, r) = (e, Forth-frame y b ys same r)
Forth-join f g a c b (m ∷ ms) ys (e, q) same r = (e, Forth-join f g m c b ms ys q same r)

Back-join :
    (f g : ℕ → ℕ) (a c b : ℕ) (ms ys : List ℕ)
    → Distinct (b ∷ ys)
    → Back g a ms (first_or ys b)
    → ((k : ℕ) → has k (b ∷ ys) ≡ true → k ≢ first_or ys b → g k ≡ f k)
    → Back f c ys b
    → Back g a (ms ++ ys) b
Back-join f g a c b [] [] d e same r = e
Back-join f g a c b [] (y ∷ ys) (out, (once, _)) e same (_, r) = (
  e,
  Back-frame y b ys
      (λ k h. same k (ground arith) λ q. ne_of_has y k (b ∷ ys) (ground arith) h (sym q)) r,
)
Back-join f g a c b (m ∷ ms) ys d (e, q) same r = (e, Back-join f g m c b ms ys d q same r)

-- The nodes `ms` in the middle of a chain give way to `ms'`.
pub Forth-splice :
    (f g : ℕ → ℕ) (a b : ℕ) (xs ms ms' ys : List ℕ)
    → Distinct (a ∷ xs)
    → ((c : ℕ) → has c (a ∷ xs) ≡ true → c ≢ last_or a xs → g c ≡ f c)
    → ((c : ℕ) → has c ys ≡ true → g c ≡ f c)
    → Forth g (last_or a xs) ms' (first_or ys b)
    → Forth f a (xs ++ (ms ++ ys)) b
    → Forth g a (xs ++ (ms' ++ ys)) b
Forth-splice f g a b [] ms ms' ys d same behind middle r =
    Forth-join f g a (last_or a ms) b ms' ys middle behind (Forth-tail f a b ms ys r)
Forth-splice f g a b (x ∷ xs) ms ms' ys (out, d) same behind middle (e, r) = (
  same a (ground arith) (ne_of_has a (last_or x xs) (x ∷ xs) out (has-last_or x xs)) ∙ e,
  Forth-splice f g x b xs ms ms' ys d (λ c h. same c (ground arith)) behind middle r,
)

pub Back-splice :
    (f g : ℕ → ℕ) (a b : ℕ) (xs ms ms' ys : List ℕ)
    → Distinct (b ∷ ys)
    → ((c : ℕ) → has c xs ≡ true → g c ≡ f c)
    → ((c : ℕ) → has c (b ∷ ys) ≡ true → c ≢ first_or ys b → g c ≡ f c)
    → Back g (last_or a xs) ms' (first_or ys b)
    → Back f a (xs ++ (ms ++ ys)) b
    → Back g a (xs ++ (ms' ++ ys)) b
Back-splice f g a b [] ms ms' ys d before same middle r =
    Back-join f g a (last_or a ms) b ms' ys d middle same (Back-tail f a b ms ys r)
Back-splice f g a b (x ∷ xs) ms ms' ys d before same middle (e, r) = (
  before x (ground arith) ∙ e,
  Back-splice f g x b xs ms ms' ys d (λ c h. before c (ground arith)) same middle r,
)

-- What the distinct nodes of a list give for its parts.
pub apart : (xs ys : List ℕ) (c : ℕ) → Distinct (xs ++ ys) → has c xs ≡ true → has c ys ≡ false
apart [] ys c d h = cc
apart (x ∷ xs) ys c (out, d) h = elim (Bool-cases (c == x)) [
  | inl e ↦ ground (arith, has-append x xs ys, ap (λ t. has t ys) ((==_iff c x).0 e))
  | inr e ↦ apart xs ys c d (ground arith)
]

pub Distinct_left : (xs ys : List ℕ) → Distinct (xs ++ ys) → Distinct xs
Distinct_left [] ys d = tt
Distinct_left (x ∷ xs) ys (out, d) = (ground (arith, has-append x xs ys), Distinct_left xs ys d)

pub Distinct_right : (xs ys : List ℕ) → Distinct (xs ++ ys) → Distinct ys
Distinct_right [] ys d = d
Distinct_right (x ∷ xs) ys (out, d) = Distinct_right xs ys d

pub Distinct_insert :
    (xs ys : List ℕ) (new : ℕ)
    → Distinct (xs ++ ys)
    → has new (xs ++ ys) ≡ false
    → Distinct (xs ++ (new ∷ ys))
Distinct_insert [] ys new d h = (h, d)
Distinct_insert (x ∷ xs) ys new (out, d) h = (
  ground (arith, has-append x xs ys, has-append x xs (new ∷ ys)),
  Distinct_insert xs ys new d (ground arith),
)

pub Distinct_remove :
    (xs ys : List ℕ) (n : ℕ)
    → Distinct (xs ++ (n ∷ ys))
    → Distinct (xs ++ ys) × (has n (xs ++ ys) ≡ false)
Distinct_remove [] ys n (out, d) = (d, out)
Distinct_remove (x ∷ xs) ys n (out, d) =
    let (rest, gone) = Distinct_remove xs ys n d in
    (
      (ground (arith, has-append x xs ys, has-append x xs (n ∷ ys)), rest),
      ground (arith, has-append x xs (n ∷ ys)),
    )

-- A list of which no node has changed.
pub IsList-frame :
    {l l' : Links} (head : ℕ) (xs : List ℕ)
    → ((c : ℕ) → has c (head ∷ xs) ≡ true → (l'.next c ≡ l.next c) × (l'.prev c ≡ l.prev c))
    → IsList l head xs
    → IsList l' head xs
IsList-frame head xs same is = record {
  forth = Forth-frame head head xs (λ c h. (same c h).0) is.forth;
  back = Back-frame head head xs (λ c h. (same c h).1) is.back;
  distinct = is.distinct;
  not_null = is.not_null;
}

module _ (head : ℕ) (xs ys : List ℕ) (d : Distinct (head ∷ (xs ++ ys))) where
  -- The node before a gap is not behind it, and the node behind it not before.
  pub last-ne : (c : ℕ) → has c ys ≡ true → c ≢ last_or head xs
  last-ne c h e =
      ne_of_has (last_or head xs) c ys
        (apart (head ∷ xs) ys (last_or head xs) d (has-last_or head xs)) h (sym e)

  pub first-ne : (c : ℕ) → has c xs ≡ true → c ≢ first_or ys head
  first-ne c h =
      let out : has c (head ∷ ys) ≡ false = elim (Bool-cases (c == head)) [
        | inl e ↦ absurd (
            ne_of_has head c (xs ++ ys) d.0 (ground (arith, has-append c xs ys))
              (sym ((==_iff c head).0 e)))
        | inr e ↦ ground (arith, apart xs ys c d.1 h)
      ] in
      ne_of_has c (first_or ys head) (head ∷ ys) out (has-first_or head ys)

-- The nodes `ms` in the middle of a list give way to `ms'`: two links of the neighbours and those
-- of `ms'` are written.
pub splice-IsList :
    (l l' : Links) (head : ℕ) (xs ms ms' ys : List ℕ)
    → IsList l head (xs ++ (ms ++ ys))
    → Distinct (head ∷ (xs ++ ys))
    → Distinct (head ∷ (xs ++ (ms' ++ ys)))
    → has 0 (head ∷ (xs ++ (ms' ++ ys))) ≡ false
    → ((c : ℕ) → has c (head ∷ (xs ++ ys)) ≡ true → c ≢ last_or head xs → l'.next c ≡ l.next c)
    → ((c : ℕ) → has c (head ∷ (xs ++ ys)) ≡ true → c ≢ first_or ys head → l'.prev c ≡ l.prev c)
    → Forth l'.next (last_or head xs) ms' (first_or ys head)
    → Back l'.prev (last_or head xs) ms' (first_or ys head)
    → IsList l' head (xs ++ (ms' ++ ys))
splice-IsList l l' head xs ms ms' ys is d d' nn next_same prev_same forth back = record {
  forth =
      Forth-splice l.next l'.next head head xs ms ms' ys (Distinct_left (head ∷ xs) ys d)
        (λ c h. next_same c (ground (arith, has-append c xs ys)))
        (λ c h. next_same c (ground (arith, has-append c xs ys)) (last-ne head xs ys d c h)) forth
        is.forth;
  back =
      Back-splice l.prev l'.prev head head xs ms ms' ys
        (ground (arith, has-append head xs ys, d.0), Distinct_right (head ∷ xs) ys d)
        (λ c h. prev_same c (ground (arith, has-append c xs ys)) (first-ne head xs ys d c h))
        (λ c h. prev_same c (ground (arith, has-append c xs ys))) back is.back;
  distinct = d';
  not_null = nn;
}
