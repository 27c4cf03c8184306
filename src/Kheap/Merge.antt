-- ===== src/Kheap/Merge.antt =====
-- `kheap_merge` of kernel/mm/kheap.c joins two free blocks.
use it_works_os.Base.{
  ℕ, ◌+◌, ◌%◌, ◌^◌, ◌<◌, ◌≡◌, refl, arith, false, List, ◌∷◌, ◌++◌, if◌then◌else◌, ◌==◌,
}
use it_works_os.Kheap.{Kheap, write_field, kheap_merge}
use it_works_os.Kheap.Heap.{IsHeap}
use it_works_os.Kheap.Blocks.{
  Block, Seg, total, count, count-append, free_of, free_of-append, used_of, used_of-append,
  Seg-total, Seg-left, Seg-right, Seg-join, Seg-frame,
}

abbrev pub vacant : ℕ → Block
vacant n = record { size = n; used = false }

-- The heap while `extra` counts the free blocks that are not in the list.
pub record IsLoose (h : Kheap) (bs : List Block) (extra : ℕ → ℕ) : Type 0 where
  pub blocks : Seg h h.kheap_start bs h.kheap_end
  pub free : (q : ℕ) → count q h.free_list + extra q ≡ count q (free_of h.kheap_start bs)
  pub word : h.kheap_end < 2 ^ 32
  pub aligned : h.kheap_start % 4 ≡ 0
  pub not_null : 0 < h.kheap_start

abbrev pub one_at : ℕ → ℕ → ℕ
one_at p q = if p == q then 1 else 0

pub settled : {h : Kheap} {bs : List Block} → IsLoose h bs (λ q. 0) → IsHeap h bs
settled l = record {
  blocks = l.blocks;
  free = λ q. omega (arith, l.free q);
  word = l.word;
  aligned = l.aligned;
  not_null = l.not_null;
}

pub settle_front :
    (h : Kheap) (bs : List Block) (p : ℕ)
    → IsLoose h bs (one_at p)
    → IsHeap (record h { free_list = p ∷ h.free_list }) bs
settle_front h bs p l = record {
  blocks =
      Seg-frame h (record h { free_list = p ∷ h.free_list }) h.kheap_start h.kheap_end bs
        (λ q lo hi. (refl, refl, refl)) l.blocks;
  free = λ q. ground (arith, l.free q);
  word = l.word;
  aligned = l.aligned;
  not_null = l.not_null;
}

abbrev pub merged : Kheap → ℕ → ℕ → List ℕ → Kheap
merged h p a l = kheap_merge p (p + a) (record h { free_list = l })

module _ (h : Kheap) (p a b : ℕ) (ls rs : List Block) (extra extra' : ℕ → ℕ) (l : List ℕ)
    (loose : IsLoose h (ls ++ (vacant a ∷ vacant b ∷ rs)) extra)
    (place : p ≡ h.kheap_start + total ls) where
  before : Seg h h.kheap_start ls p
  before =
      rw place (Seg-left h h.kheap_start h.kheap_end ls (vacant a ∷ vacant b ∷ rs) loose.blocks)

  pair : Seg h p (vacant a ∷ vacant b ∷ rs) h.kheap_end
  pair = Seg-right h h.kheap_start h.kheap_end p ls (vacant a ∷ vacant b ∷ rs) place loose.blocks

  merge-Seg : Seg (merged h p a l) h.kheap_start (ls ++ (vacant (a + b) ∷ rs)) h.kheap_end
  unfolding write_field
  merge-Seg =
      let m = merged h p a l in
      let (x, (y, rest)) = pair in
      let end = Seg-total h (p + a + b) h.kheap_end rs rest in
      let far : p + a + b ≡ p + (a + b) = omega arith in
      let sum : (h.sizes p + h.sizes (p + a)) % 2 ^ 32 ≡ a + b =
        omega (arith, x.header, y.header, loose.word) in
      Seg-join m h.kheap_start h.kheap_end p ls (vacant (a + b) ∷ rs)
        (Seg-frame h m h.kheap_start p ls
          (λ q lo hi. (ground arith, ground arith, ground (arith, y.header))) before)
        (
          record {
            header = ground arith;
            footer = ground (arith, y.header);
            state = x.state;
            large = omega (arith, x.large);
            aligned = omega (arith, x.aligned, y.aligned);
          },
          Seg-frame h m (p + (a + b)) h.kheap_end rs
              (λ q lo hi.
                (ground (arith, x.large, y.large), ground arith, ground (arith, y.header, y.large)))
              (rw far at rest),
        )

  merge-free_of :
      (q : ℕ)
      → count q (free_of h.kheap_start (ls ++ (vacant a ∷ vacant b ∷ rs)))
        ≡ count q (free_of h.kheap_start (ls ++ (vacant (a + b) ∷ rs))) + one_at (p + a) q
  merge-free_of q =
      let far : p + a + b ≡ p + (a + b) = omega arith in
      rw
        (
          free_of-append h.kheap_start ls (vacant a ∷ vacant b ∷ rs),
          free_of-append h.kheap_start ls (vacant (a + b) ∷ rs),
          ← place,
          far,
        )
        (ground (
          arith,
          count-append q (free_of h.kheap_start ls) (p ∷ (p + a) ∷ free_of (p + (a + b)) rs),
          count-append q (free_of h.kheap_start ls) (p ∷ free_of (p + (a + b)) rs),
        ))

  pub merge-IsLoose :
      ((q : ℕ) → count q l + extra' q + one_at (p + a) q ≡ count q h.free_list + extra q)
      → IsLoose (merged h p a l) (ls ++ (vacant (a + b) ∷ rs)) extra'
  merge-IsLoose counts = record {
    blocks = merge-Seg;
    free = λ q. omega (arith, loose.free q, counts q, merge-free_of q);
    word = loose.word;
    aligned = loose.aligned;
    not_null = loose.not_null;
  }

  pub merge-used_of :
      used_of h.kheap_start (ls ++ (vacant (a + b) ∷ rs))
      ≡ used_of h.kheap_start (ls ++ (vacant a ∷ vacant b ∷ rs))
  merge-used_of =
      let far : p + a + b ≡ p + (a + b) = omega arith in
      rw
        (
          used_of-append h.kheap_start ls (vacant a ∷ vacant b ∷ rs),
          used_of-append h.kheap_start ls (vacant (a + b) ∷ rs),
          ← place,
          far,
        )
        refl
