-- ===== src/Vmm/Areas.antt =====
-- The list of areas of kernel/mm/vmm.c: in order of addresses and without an overlap.
use it_works_os.Base.{
  ℕ, ◌+◌, ◌^◌, ◌≤◌, ◌<◌, ◌≡◌, ◌≢◌, ◌⊎◌, ◌↔◌, refl, inl, inr, true, false, arith, ap, Option, none,
  some, List, [], ◌∷◌, ◌++◌, ◌&&◌, ltb, leb, Bool-cases,
}
use it_works_os.Vmm.{
  Vma, Node, Place, behind, vm_find_vma, vm_user_end, vm_user_range_valid, find_from, find_range,
  place,
}

-- The areas are not empty, lie from `lo` up to the end of the user's addresses, in order, and do
-- not overlap.
abbrev pub IsOrdered : ℕ → List Vma → Type 0
IsOrdered lo [] = Unit
IsOrdered lo (v ∷ vs) =
    (lo ≤ v.start) × (v.start < v.end) × (v.end ≤ vm_user_end) × IsOrdered v.end vs

-- Every area of a list has a property.
abbrev pub All : (Vma → Type 0) → List Vma → Type 0
All P [] = Unit
All P (v ∷ vs) = P v × All P vs

abbrev pub Holds : ℕ → Vma → Type 0
Holds a v = (v.start ≤ a) × (a < v.end)

-- An area does not meet the addresses from `lo` up to `hi`.
abbrev pub IsApart : ℕ → ℕ → Vma → Type 0
IsApart lo hi v = (v.end ≤ lo) ⊎ (hi ≤ v.start)

-- `virt` with `size` bytes are accepted exactly if they are user addresses, or if they reach to
-- the very end of the 32-bit addresses, where their sum wraps to 0.
pub vm_user_range_valid_lem :
    (virt size : ℕ)
    → size < 2 ^ 32
    → vm_user_range_valid virt size ≡ true
      ↔ (size ≢ 0) × (virt < vm_user_end) × ((virt + size ≤ vm_user_end) ⊎ (virt + size ≡ 2 ^ 32))
unfolding vm_user_range_valid
vm_user_range_valid_lem virt size h = ground arith

weaken : (lo lo' : ℕ) (vs : List Vma) → lo' ≤ lo → IsOrdered lo vs → IsOrdered lo' vs
weaken lo lo' [] h o = tt
weaken lo lo' (v ∷ vs) h (a, b, c, o) = (omega arith, b, c, o)

none_below : (a lo : ℕ) (vs : List Vma) → a < lo → IsOrdered lo vs → All (λ v. ¬ Holds a v) vs
none_below a lo [] h o = tt
none_below a lo (v ∷ vs) h (b, c, d, o) =
    ((λ (p, q). omega arith), none_below a v.end vs (omega arith) o)

-- What a search answers: the split of the list at an area with the property, or all the areas
-- have it not.
abbrev pub IsFound : (Vma → Type 0) → List Vma → Option Node → Type 0
IsFound P vs none = All (λ v. ¬ P v) vs
IsFound P vs (some n) = (vs ≡ n.before ++ (n.vma ∷ n.after)) × P n.vma

behind-IsFound :
    (P : Vma → Type 0) (v : Vma) (vs : List Vma) (o : Option Node)
    → ¬ P v
    → IsFound P vs o
    → IsFound P (v ∷ vs) (behind v o)
behind-IsFound P v vs none no_v f = (no_v, f)
behind-IsFound P v vs (some n) no_v (e, p) = (ap (λ vs. v ∷ vs) e, p)

pub find_from-IsFound :
    (vs : List Vma) (lo a : ℕ) → IsOrdered lo vs → IsFound (Holds a) vs (find_from vs a)
unfolding find_from
find_from-IsFound [] lo a o = tt
find_from-IsFound (v ∷ vs) lo a (b, c, d, o) = elim (Bool-cases (ltb a v.start)) [
  | inl e ↦ rw e ((λ (p, q). ground arith), none_below a v.end vs (ground arith) o)
  | inr e ↦ elim (Bool-cases (ltb a v.end)) [
    | inl f ↦
        let g : (leb v.start a && ltb a v.end) ≡ true = ground arith in
        rw (e, g) (refl, ground arith)
    | inr f ↦
        let g : (leb v.start a && ltb a v.end) ≡ false = ground arith in
        rw (e, g)
          (behind-IsFound _ v vs (find_from vs a) (λ (p, q). ground arith)
            (find_from-IsFound vs v.end a o))
  ]
]

-- An area spans the addresses from `lo` up to `hi`.
abbrev pub Spans : ℕ → ℕ → Vma → Type 0
Spans lo hi v = (v.start ≤ lo) × (hi ≤ v.end)

none-Spans : (a hi lo : ℕ) (vs : List Vma) → a < lo → IsOrdered lo vs → All (λ v. ¬ Spans a hi v) vs
none-Spans a hi lo [] h o = tt
none-Spans a hi lo (v ∷ vs) h (b, c, d, o) =
    ((λ (p, q). omega arith), none-Spans a hi v.end vs (omega arith) o)

pub find_range-IsFound :
    (vs : List Vma) (lo a hi : ℕ) → IsOrdered lo vs → IsFound (Spans a hi) vs (find_range vs a hi)
unfolding find_range
find_range-IsFound [] lo a hi o = tt
find_range-IsFound (v ∷ vs) lo a hi (b, c, d, o) = elim (Bool-cases (ltb a v.start)) [
  | inl e ↦ rw e ((λ (p, q). ground arith), none-Spans a hi v.end vs (ground arith) o)
  | inr e ↦ elim (Bool-cases (leb hi v.end)) [
    | inl f ↦
        let g : (leb v.start a && leb hi v.end) ≡ true = ground arith in
        rw (e, g) (refl, ground arith)
    | inr f ↦
        let g : (leb v.start a && leb hi v.end) ≡ false = ground arith in
        rw (e, g)
          (behind-IsFound _ v vs (find_range vs a hi) (λ (p, q). ground arith)
            (find_range-IsFound vs v.end a hi o))
  ]
]

split_start :
    (xs : List Vma) (v : Vma) (ys : List Vma) (lo : ℕ)
    → IsOrdered lo (xs ++ (v ∷ ys))
    → lo ≤ v.start
split_start [] v ys lo o = o.0
split_start (x ∷ xs) v ys lo (b, c, d, o) = omega (arith, split_start xs v ys x.end o)

-- An area of an ordered list is found by each of its addresses.
pub find_from_at :
    (xs : List Vma) (v : Vma) (ys : List Vma) (lo a : ℕ)
    → IsOrdered lo (xs ++ (v ∷ ys))
    → Holds a v
    → find_from (xs ++ (v ∷ ys)) a ≡ some (record { before = xs; vma = v; after = ys })
unfolding find_from
find_from_at [] v ys lo a o h = ground arith
find_from_at (x ∷ xs) v ys lo a (b, c, d, o) h =
    let r = find_from_at xs v ys x.end a o h in
    let far = split_start xs v ys x.end o in ground (arith, r, far)

pub find_range_at :
    (xs : List Vma) (v : Vma) (ys : List Vma) (lo a hi : ℕ)
    → IsOrdered lo (xs ++ (v ∷ ys))
    → Spans a hi v
    → a < hi
    → find_range (xs ++ (v ∷ ys)) a hi ≡ some (record { before = xs; vma = v; after = ys })
unfolding find_range
find_range_at [] v ys lo a hi o h some_bytes = ground arith
find_range_at (x ∷ xs) v ys lo a hi (b, c, d, o) h some_bytes =
    let r = find_range_at xs v ys x.end a hi o h some_bytes in
    let far = split_start xs v ys x.end o in ground (arith, r, far)

-- The place for a range, before and after which the areas lie apart from it, or a proof that one
-- does not.
abbrev pub IsPlace : ℕ → List Vma → ℕ → ℕ → Option Place → Type 0
IsPlace lo vs a hi none = ¬ All (IsApart a hi) vs
IsPlace lo vs a hi (some p) =
    (vs ≡ p.before ++ p.after)
    × ((v : Vma) → v.start ≡ a → v.end ≡ hi → IsOrdered lo (p.before ++ (v ∷ p.after)))
    × All (IsApart a hi) vs

All-after : (a hi lo : ℕ) (vs : List Vma) → hi ≤ lo → IsOrdered lo vs → All (IsApart a hi) vs
All-after a hi lo [] h o = tt
All-after a hi lo (v ∷ vs) h (b, c, d, o) =
    (inr (omega arith), All-after a hi v.end vs (omega arith) o)

pub place-IsPlace :
    (vs : List Vma) (lo a hi : ℕ)
    → IsOrdered lo vs
    → lo ≤ a
    → a < hi
    → hi ≤ vm_user_end
    → IsPlace lo vs a hi (place vs a hi)
unfolding place
place-IsPlace [] lo a hi o h some_bytes user =
    (refl, (λ v s e. (omega arith, omega arith, omega arith, tt)), tt)
place-IsPlace (v ∷ vs) lo a hi (b, c, d, o) h some_bytes user = elim (Bool-cases (leb v.end a)) [
  | inl e ↦ rw e (
      go (place vs a hi) (ground arith)
        (place-IsPlace vs v.end a hi o (ground arith) some_bytes user))
  | inr e ↦ elim (Bool-cases (leb hi v.start)) [
    | inl f ↦
        rw (e, f)
          (
            refl,
            (λ w s t. (omega arith, omega arith, omega arith, (ground arith, c, d, o))),
            (inr (ground arith), All-after a hi v.end vs (ground arith) o),
          )
    | inr f ↦ rw (e, f) (λ (apart, _). ground arith)
  ]
]
  where
    go :
        (p : Option Place)
        → v.end ≤ a
        → IsPlace v.end vs a hi p
        → IsPlace lo
            (v ∷ vs)
            a
            hi
            (elim p [ none ↦ none | some p ↦ some (record p { before = v ∷ p.before }) ])
    go none below clash = λ (_, rest). clash rest
    go (some p) below (e, put, apart) =
        (ap (λ vs. v ∷ vs) e, (λ w s t. (b, c, d, put w s t)), (inl below, apart))

-- Taking an area out, and changing what it permits, keep the order.
pub IsOrdered-taken :
    (xs : List Vma) (v : Vma) (ys : List Vma) (lo : ℕ)
    → IsOrdered lo (xs ++ (v ∷ ys))
    → IsOrdered lo (xs ++ ys)
IsOrdered-taken [] v ys lo (b, c, d, o) = weaken v.end lo ys (omega arith) o
IsOrdered-taken (x ∷ xs) v ys lo (b, c, d, o) = (b, c, d, IsOrdered-taken xs v ys x.end o)

pub IsOrdered-changed :
    (xs : List Vma) (v : Vma) (ys : List Vma) (lo flags : ℕ)
    → IsOrdered lo (xs ++ (v ∷ ys))
    → IsOrdered lo (xs ++ (record v { flags = flags } ∷ ys))
IsOrdered-changed [] v ys lo flags o = o
IsOrdered-changed (x ∷ xs) v ys lo flags (b, c, d, o) =
    (b, c, d, IsOrdered-changed xs v ys x.end flags o)

-- `vm_find_vma` answers with the area that holds the address, or that none does.
pub vm_find_vma_lem :
    (vs : List Vma) → IsOrdered 0 vs → (a : ℕ) → IsFound (Holds a) vs (vm_find_vma vs a)
unfolding vm_find_vma
vm_find_vma_lem vs o a = elim (Bool-cases (leb vm_user_end a)) [
  | inl e ↦ rw e (kernel vs 0 o (ground arith))
  | inr e ↦ rw e (find_from-IsFound vs 0 a o)
]
  where
    kernel :
        (vs : List Vma) (lo : ℕ) → IsOrdered lo vs → vm_user_end ≤ a → All (λ v. ¬ Holds a v) vs
    kernel [] lo o h = tt
    kernel (v ∷ vs) lo (b, c, d, o) h = ((λ (p, q). omega arith), kernel vs v.end o h)
