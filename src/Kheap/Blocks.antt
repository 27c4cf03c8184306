-- ===== src/Kheap/Blocks.antt =====
-- The blocks of the heap of kernel/mm/kheap.c, in the order of their addresses.
use it_works_os.Base.{
  ℕ, suc, ◌+◌, ◌-◌, ◌%◌, ◌≤◌, ◌<◌, ◌≡◌, refl, ap, arith, inl, inr, Bool, true, false, List, [], ◌∷◌,
  ◌++◌, if◌then◌else◌, ◌==◌, Bool-cases,
}
use it_works_os.Bits.{bit, mask_set, mask_clear, mask_test-bit, digit-mask_set, digit-mask_clear}
use it_works_os.Kheap.{Kheap, is_alloc, unlink}

pub record Block : Type 0 where
  pub size : ℕ
  pub used : Bool

-- The header and the footer at `a` are those of a block.
pub record IsBlock (h : Kheap) (a : ℕ) (x : Block) : Type 0 where
  pub header : h.sizes a ≡ x.size
  pub footer : h.footers (a + x.size - 4) ≡ x.size
  pub state : is_alloc (h.flags a) ≡ x.used
  pub large : 24 ≤ x.size
  pub aligned : x.size % 4 ≡ 0

-- The blocks fill the addresses from `a` up to `b`.
abbrev pub Seg : Kheap → ℕ → List Block → ℕ → Type 0
Seg h a [] b = a ≡ b
Seg h a (x ∷ xs) b = IsBlock h a x × Seg h (a + x.size) xs b

abbrev pub total : List Block → ℕ
total [] = 0
total (x ∷ xs) = x.size + total xs

pub total-append : (xs ys : List Block) → total (xs ++ ys) ≡ total xs + total ys
total-append [] ys = omega arith
total-append (x ∷ xs) ys = omega (arith, total-append xs ys)

module _ (h : Kheap) where
  pub Seg-total : (a b : ℕ) (xs : List Block) → Seg h a xs b → a + total xs ≡ b
  Seg-total a b [] s = omega arith
  Seg-total a b (x ∷ xs) s = omega (arith, Seg-total (a + x.size) b xs s.1)

  pub Seg-left : (a b : ℕ) (xs ys : List Block) → Seg h a (xs ++ ys) b → Seg h a xs (a + total xs)
  Seg-left a b [] ys s = omega arith
  Seg-left a b (x ∷ xs) ys (x_ok, s) =
      let e : a + x.size + total xs ≡ a + (x.size + total xs) = omega arith in
      (x_ok, rw (← e) (Seg-left (a + x.size) b xs ys s))

  pub Seg-right :
      (a b c : ℕ) (xs ys : List Block) → c ≡ a + total xs → Seg h a (xs ++ ys) b → Seg h c ys b
  Seg-right a b c [] ys e s = let d : c ≡ a = omega arith in rw d s
  Seg-right a b c (x ∷ xs) ys e (_, s) = Seg-right (a + x.size) b c xs ys (omega arith) s

  pub Seg-join :
      (a b c : ℕ) (xs ys : List Block) → Seg h a xs c → Seg h c ys b → Seg h a (xs ++ ys) b
  Seg-join a b c [] ys s t = rw s t
  Seg-join a b c (x ∷ xs) ys (x_ok, s) t = (x_ok, Seg-join (a + x.size) b c xs ys s t)

-- Two heaps agree on the fields from `a` up to `b`.
abbrev pub Agree : Kheap → Kheap → ℕ → ℕ → Type 0
Agree h h' a b =
    (p : ℕ)
    → a ≤ p
    → p < b
    → (h'.sizes p ≡ h.sizes p) × (h'.flags p ≡ h.flags p) × (h'.footers p ≡ h.footers p)

pub Seg-frame :
    (h h' : Kheap) (a b : ℕ) (xs : List Block) → Agree h h' a b → Seg h a xs b → Seg h' a xs b
Seg-frame h h' a b [] same s = s
Seg-frame h h' a b (x ∷ xs) same (x_ok, s) =
    let end = Seg-total h (a + x.size) b xs s in
    let head = same a (omega arith) (omega (arith, x_ok.large)) in
    let tail = same (a + x.size - 4) (omega (arith, x_ok.large)) (omega (arith, x_ok.large)) in
    (
      record {
        header = rw head.0 x_ok.header;
        footer = rw tail.2 x_ok.footer;
        state = rw head.1 x_ok.state;
        large = x_ok.large;
        aligned = x_ok.aligned;
      },
      Seg-frame h h' (a + x.size) b xs (λ p lo hi. same p (omega arith) hi) s,
    )

-- How often an address stands in a list.
abbrev pub count : ℕ → List ℕ → ℕ
count p [] = 0
count p (q ∷ qs) = if q == p then suc (count p qs) else count p qs

pub count-append : (p : ℕ) (xs ys : List ℕ) → count p (xs ++ ys) ≡ count p xs + count p ys
count-append p [] ys = omega arith
count-append p (x ∷ xs) ys = ground (arith, count-append p xs ys)

pub count-unlink :
    (p q : ℕ) (xs : List ℕ) → count p (unlink q xs) ≡ count p xs - (if p == q then 1 else 0)
unfolding unlink
count-unlink p q [] = ground arith
count-unlink p q (x ∷ xs) = ground (arith, count-unlink p q xs)

-- The addresses of the free blocks.
abbrev pub free_of : ℕ → List Block → List ℕ
free_of a [] = []
free_of a (x ∷ xs) = if x.used then free_of (a + x.size) xs else a ∷ free_of (a + x.size) xs

pub free_of-append :
    (a : ℕ) (xs ys : List Block) → free_of a (xs ++ ys) ≡ free_of a xs ++ free_of (a + total xs) ys
free_of-append a [] ys = ap (λ b. free_of b ys) (omega arith)
free_of-append a (x ∷ xs) ys =
    let e : a + x.size + total xs ≡ a + (x.size + total xs) = omega arith in
    elim (Bool-cases x.used) [
      | inl u ↦ rw (u, free_of-append (a + x.size) xs ys, e) refl
      | inr u ↦ rw (u, free_of-append (a + x.size) xs ys, e) refl
    ]

-- The blocks in use, by address and size.
abbrev pub used_of : ℕ → List Block → List (ℕ × ℕ)
used_of a [] = []
used_of a (x ∷ xs) =
    if x.used then (a, x.size) ∷ used_of (a + x.size) xs else used_of (a + x.size) xs

pub used_of-append :
    (a : ℕ) (xs ys : List Block) → used_of a (xs ++ ys) ≡ used_of a xs ++ used_of (a + total xs) ys
used_of-append a [] ys = ap (λ b. used_of b ys) (omega arith)
used_of-append a (x ∷ xs) ys =
    let e : a + x.size + total xs ≡ a + (x.size + total xs) = omega arith in
    elim (Bool-cases x.used) [
      | inl u ↦ rw (u, used_of-append (a + x.size) xs ys, e) refl
      | inr u ↦ rw (u, used_of-append (a + x.size) xs ys, e) refl
    ]

-- The block at an address, in its list.
pub record At (a p : ℕ) (bs : List Block) (used : Bool) : Type 0 where
  pub left : List Block
  pub block : Block
  pub right : List Block
  pub whole : bs ≡ left ++ (block ∷ right)
  pub place : p ≡ a + total left
  pub state : block.used ≡ used

pub locate : (a p : ℕ) (bs : List Block) → 0 < count p (free_of a bs) → At a p bs false
locate a p [] h = absurd (omega arith)
locate a p (x ∷ xs) h = elim (Bool-cases x.used) [
  | inl u ↦ below (locate (a + x.size) p xs (rw u at h))
  | inr u ↦ elim (Bool-cases (a == p)) [
    | inl e ↦ record {
      left = [];
      block = x;
      right = xs;
      whole = refl;
      place = ground arith;
      state = u;
    }
    | inr e ↦ below (locate (a + x.size) p xs (rw (u, e) at h))
  ]
]
  where
    below : At (a + x.size) p xs false → At a p (x ∷ xs) false
    below f = record {
      left = x ∷ f.left;
      block = f.block;
      right = f.right;
      whole = ap (λ l. x ∷ l) f.whole;
      place = omega (arith, f.place);
      state = f.state;
    }

pub is_alloc-mask_set : (f : ℕ) → is_alloc (mask_set f (bit 0)) ≡ true
is_alloc-mask_set f = rw mask_test-bit (rw digit-mask_set (ground arith))

pub is_alloc-mask_clear : (f : ℕ) → is_alloc (mask_clear 32 f (bit 0)) ≡ false
is_alloc-mask_clear f =
    rw mask_test-bit (rw (digit-mask_clear 32 f 0 0 (omega arith) (omega arith)) (ground arith))
