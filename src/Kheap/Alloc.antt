-- ===== src/Kheap/Alloc.antt =====
-- `kmalloc` of kernel/mm/kheap.c against the list of blocks.
use it_works_os.Base.{
  ℕ, ◌+◌, ◌-◌, ◌*◌, ◌/◌, ◌%◌, ◌^◌, ◌<◌, ◌≡◌, ◌≢◌, ◌⊎◌, refl, arith, inl, inr, false, Option, none,
  some, List, [], ◌∷◌, ◌==◌, leb, Bool-cases,
}
use it_works_os.Bits.Align.{align_up_word}
use it_works_os.Kerror.{Kerror, nomem}
use it_works_os.Kheap.{Kheap, FreeNode, use_block, block_size_of, kmalloc}
use it_works_os.Kheap.Heap.{IsHeap, from_at}
use it_works_os.Kheap.Blocks.{Block, count, count-append, free_of, free_of-append, At, locate}
use it_works_os.Kheap.Take.{
  FitOutcome, first_fit-FitOutcome, Allocated, split-Allocated, take-Allocated,
}

module _ (size : ℕ) (h : Kheap) (bs : List Block) where
  abbrev pub AllocOutcome : (Kerror ⊎ ℕ) × Kheap → Type 0
  AllocOutcome (r, h') =
      ((ptr : ℕ) × (r ≡ inr ptr) × Allocated size ptr h h' bs)
      ⊎ ((r ≡ inl nomem)
          × (h' ≡ h)
          × ((p : ℕ) (at : At h.kheap_start p bs false) → at.block.size < (size + 3) / 4 * 4 + 20))

  module _ (v : IsHeap h bs) where
    free_size :
        (p : ℕ) (at : At h.kheap_start p bs false)
        → (0 < count p h.free_list) × (h.sizes p ≡ at.block.size)
    free_size p at =
        let f : FreeNode = record { before = []; header = p; after = [] } in
        (
          ground (
            arith,
            v.free p,
            rw
                (
                  at.whole,
                  free_of-append h.kheap_start at.left (at.block ∷ at.right),
                  ← at.place,
                  at.state,
                )
                at (v.free p),
            count-append p (free_of h.kheap_start at.left)
                (p ∷ free_of (p + at.block.size) at.right),
          ),
          (from_at v at).0.header,
        )

    module _ (n : ℕ) (exact : n ≡ (size + 3) / 4 * 4 + 20) (some_bytes : size ≢ 0) where
      by_fit :
          (o : Option FreeNode)
          → FitOutcome h.sizes n h.free_list o
          → AllocOutcome (use_block h n o)
      by_fit none small =
          inr (refl, refl, λ p at. let s = free_size p at in omega (arith, small p s.0, s.1))
      by_fit (some f) (e, fits) =
          let at = locate h.kheap_start f.header bs (omega (arith, member, v.free f.header)) in
          let b = (from_at v at).0 in
          let aligned : n % 4 ≡ 0 = omega arith in
          elim (Bool-cases (leb 24 (h.sizes f.header - n))) [
            | inl rest ↦ rw rest (
                inl (
                  f.header + 16,
                  refl,
                  split-Allocated v f at n size (omega arith) aligned (omega arith)
                      (omega (arith, b.header)) (ground (arith, b.header)) e,
                ))
            | inr no_rest ↦ rw no_rest (
                inl (
                  f.header + 16,
                  refl,
                  take-Allocated v f at n size (omega arith) aligned (omega arith)
                      (omega (arith, b.header)) e,
                ))
          ]
        where
          member : 0 < count f.header h.free_list
          member = rw e (ground (arith, count-append f.header f.before (f.header ∷ f.after)))

    -- `kmalloc` of at least one byte, and of fewer than 2^32 - 23, gives a payload of at least as many
    -- bytes in a block that was free, at an address aligned to 4, and every block in use stays where
    -- it is; NOMEM, without a change, only if every free block is too small for the payload rounded
    -- up to words. The invariant of the heap is kept.
    pub kmalloc_lem : size ≢ 0 → size + 23 < 2 ^ 32 → AllocOutcome (kmalloc size h)
    unfolding kmalloc block_size_of
    kmalloc_lem some_bytes small =
        let e : (size == 0) ≡ false = ground arith in
        let exact : block_size_of size ≡ (size + 3) / 4 * 4 + 20 =
          omega (arith, align_up_word size (omega arith)) in
        rw e (
          by_fit (block_size_of size) exact some_bytes _
            (first_fit-FitOutcome h.sizes (block_size_of size) h.free_list))
