-- ===== src/Kheap/Heap.antt =====
-- The invariant of the heap of kernel/mm/kheap.c.
use it_works_os.Base.{ℕ, ◌+◌, ◌%◌, ◌^◌, ◌<◌, ◌≡◌, refl, arith, Bool, List, [], ◌∷◌}
use it_works_os.Kheap.{Kheap}
use it_works_os.Kheap.Blocks.{Block, Seg, total, count, free_of, At, Seg-left, Seg-right}

-- The blocks fill the heap, and the free list has exactly the free ones, each once.
pub record IsHeap (h : Kheap) (bs : List Block) : Type 0 where
  pub blocks : Seg h h.kheap_start bs h.kheap_end
  pub free : (p : ℕ) → count p h.free_list ≡ count p (free_of h.kheap_start bs)
  pub word : h.kheap_end < 2 ^ 32
  pub aligned : h.kheap_start % 4 ≡ 0
  pub not_null : 0 < h.kheap_start

pub total-aligned : (h : Kheap) (a b : ℕ) (xs : List Block) → Seg h a xs b → total xs % 4 ≡ 0
total-aligned h a b [] s = refl
total-aligned h a b (x ∷ xs) (x_ok, s) =
    omega (arith, total-aligned h (a + x.size) b xs s, x_ok.aligned)

module _ {h : Kheap} {bs : List Block} (v : IsHeap h bs) {p : ℕ} {u : Bool}
    (at : At h.kheap_start p bs u) where
  pub before_at : Seg h h.kheap_start at.left p
  before_at =
      rw at.place (
        Seg-left h h.kheap_start h.kheap_end at.left (at.block ∷ at.right)
          (rw at.whole at v.blocks))

  pub from_at : Seg h p (at.block ∷ at.right) h.kheap_end
  from_at =
      Seg-right h h.kheap_start h.kheap_end p at.left (at.block ∷ at.right) at.place
        (rw at.whole at v.blocks)
