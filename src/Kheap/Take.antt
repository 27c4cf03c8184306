-- ===== src/Kheap/Take.antt =====
-- Taking a block, or the first part of one, of the heap of kernel/mm/kheap.c.
use it_works_os.Base.{
  ℕ, ◌+◌, ◌-◌, ◌%◌, ◌≤◌, ◌<◌, ◌≡◌, refl, ap, arith, inl, inr, true, false, Option, none, some, List,
  [], ◌∷◌, ◌++◌, leb, Bool-cases,
}
use it_works_os.Kheap.{Kheap, FreeNode, write_field, past, first_fit, split_block, take_block}
use it_works_os.Kheap.Heap.{IsHeap, total-aligned, before_at, from_at}
use it_works_os.Kheap.Blocks.{
  Block, Seg, count, count-append, free_of, free_of-append, used_of, used_of-append, At, Seg-join,
  Seg-frame, is_alloc-mask_set, is_alloc-mask_clear,
}

abbrev pub FitOutcome : (ℕ → ℕ) → ℕ → List ℕ → Option FreeNode → Type 0
FitOutcome sizes n l none = (p : ℕ) → 0 < count p l → sizes p < n
FitOutcome sizes n l (some f) = (l ≡ f.before ++ (f.header ∷ f.after)) × (n ≤ sizes f.header)

pub first_fit-FitOutcome :
    (sizes : ℕ → ℕ) (n : ℕ) (l : List ℕ) → FitOutcome sizes n l (first_fit sizes n l)
unfolding first_fit
first_fit-FitOutcome sizes n [] = λ p h. absurd (omega arith)
first_fit-FitOutcome sizes n (q ∷ l) = elim (Bool-cases (leb n (sizes q))) [
  | inl e ↦ rw e (refl, ground arith)
  | inr e ↦ rw e (later (first_fit sizes n l) (ground arith) (first_fit-FitOutcome sizes n l))
]
  where
    later :
        (o : Option FreeNode)
        → sizes q < n
        → FitOutcome sizes n l o
        → FitOutcome sizes n (q ∷ l) (past q o)
    later none less small = λ p h. ground (arith, small p)
    later (some f) less (e, fits) = (ap (λ l. q ∷ l) e, fits)

-- A block of at least `size` bytes of payload is now in use at `ptr`, and no other has changed.
pub record Allocated (size ptr : ℕ) (h h' : Kheap) (bs : List Block) : Type 0 where
  pub bs' : List Block
  pub at : At h'.kheap_start (ptr - 16) bs' true
  pub old :
      used_of h.kheap_start bs
      ≡ used_of h.kheap_start at.left ++ used_of (ptr - 16 + at.block.size) at.right
  pub new :
      used_of h.kheap_start bs'
      ≡ used_of h.kheap_start at.left
        ++ ((ptr - 16, at.block.size) ∷ used_of (ptr - 16 + at.block.size) at.right)
  pub room : size + 20 ≤ at.block.size
  pub behind_header : 16 ≤ ptr
  pub aligned : ptr % 4 ≡ 0
  pub heap : IsHeap h' bs'
  pub same_start : h'.kheap_start ≡ h.kheap_start
  pub same_end : h'.kheap_end ≡ h.kheap_end

module _ {h : Kheap} {bs : List Block} (v : IsHeap h bs) (f : FreeNode)
    (at : At h.kheap_start f.header bs false) where
  module _ (n : ℕ) (some_bytes : 24 ≤ n) (n_aligned : n % 4 ≡ 0)
      (rest : n + 24 ≤ at.block.size) where
    halves : List Block
    halves =
        record { size = n; used = true }
        ∷ record { size = at.block.size - n; used = false }
        ∷ at.right

    split-Seg : Seg (split_block h n f) h.kheap_start (at.left ++ halves) h.kheap_end
    unfolding split_block write_field halves
    split-Seg =
        let b = (from_at v at).0 in
        let h' = split_block h n f in
        let tail = (from_at v at).1 in
        let far : f.header + n + (at.block.size - n) ≡ f.header + at.block.size = omega arith in
        Seg-join h' h.kheap_start h.kheap_end f.header at.left halves
          (Seg-frame h h' h.kheap_start f.header at.left
            (λ q lo hi. (ground arith, ground arith, ground arith)) (before_at v at))
          (
            record {
              header = ground arith;
              footer = ground (arith, b.header);
              state = ground (arith, is_alloc-mask_set (h.flags f.header));
              large = some_bytes;
              aligned = n_aligned;
            },
            (
              record {
                header = ground (arith, b.header);
                footer = ground (arith, b.header);
                state = ground (arith, is_alloc-mask_clear (h.flags (f.header + n)));
                large = omega arith;
                aligned = omega (arith, b.aligned);
              },
              rw far (
                  Seg-frame h h' (f.header + at.block.size) h.kheap_end at.right
                    (λ q lo hi. (ground arith, ground arith, ground (arith, b.header))) tail),
            ),
          )

    split-count :
        h.free_list ≡ f.before ++ (f.header ∷ f.after)
        → (q : ℕ)
        → count q (split_block h n f).free_list
          ≡ count q (free_of h.kheap_start (at.left ++ halves))
    unfolding split_block halves
    split-count e q =
        let far : f.header + n + (at.block.size - n) ≡ f.header + at.block.size = omega arith in
        let old = v.free q in
        rw (free_of-append h.kheap_start at.left halves, ← at.place, far)
          (ground (
            arith,
            rw
                (
                  e,
                  at.whole,
                  free_of-append h.kheap_start at.left (at.block ∷ at.right),
                  ← at.place,
                  at.state,
                )
                at old,
            count-append q f.before (f.header ∷ f.after),
            count-append q f.before ((f.header + n) ∷ f.after),
            count-append q (free_of h.kheap_start at.left)
                (f.header ∷ free_of (f.header + at.block.size) at.right),
            count-append q (free_of h.kheap_start at.left)
                ((f.header + n) ∷ free_of (f.header + at.block.size) at.right),
          ))

    split-IsHeap :
        h.free_list ≡ f.before ++ (f.header ∷ f.after)
        → IsHeap (split_block h n f) (at.left ++ halves)
    split-IsHeap e = record {
      blocks = unfold split_block in split-Seg;
      free = unfold split_block in split-count e;
      word = unfold split_block in v.word;
      aligned = unfold split_block in v.aligned;
      not_null = unfold split_block in v.not_null;
    }

  whole : List Block
  whole = record { size = at.block.size; used = true } ∷ at.right

  take-Seg : Seg (take_block h f) h.kheap_start (at.left ++ whole) h.kheap_end
  unfolding take_block write_field whole
  take-Seg =
      let b = (from_at v at).0 in
      let h' = take_block h f in
      Seg-join h' h.kheap_start h.kheap_end f.header at.left whole
        (Seg-frame h h' h.kheap_start f.header at.left
          (λ q lo hi. (ground arith, ground arith, ground arith)) (before_at v at))
        (
          record {
            header = ground (arith, b.header);
            footer = ground (arith, b.footer);
            state = ground (arith, is_alloc-mask_set (h.flags f.header));
            large = b.large;
            aligned = b.aligned;
          },
          Seg-frame h h' (f.header + at.block.size) h.kheap_end at.right
              (λ q lo hi. (ground arith, ground (arith, b.large), ground arith)) (from_at v at).1,
        )

  take-count :
      h.free_list ≡ f.before ++ (f.header ∷ f.after)
      → (q : ℕ)
      → count q (take_block h f).free_list ≡ count q (free_of h.kheap_start (at.left ++ whole))
  unfolding take_block whole
  take-count e q =
      let old = v.free q in
      rw (free_of-append h.kheap_start at.left whole, ← at.place)
        (ground (
          arith,
          rw
              (
                e,
                at.whole,
                free_of-append h.kheap_start at.left (at.block ∷ at.right),
                ← at.place,
                at.state,
              )
              at old,
          count-append q f.before (f.header ∷ f.after),
          count-append q f.before f.after,
          count-append q (free_of h.kheap_start at.left)
              (f.header ∷ free_of (f.header + at.block.size) at.right),
          count-append q (free_of h.kheap_start at.left)
              (free_of (f.header + at.block.size) at.right),
        ))

  take-IsHeap :
      h.free_list ≡ f.before ++ (f.header ∷ f.after) → IsHeap (take_block h f) (at.left ++ whole)
  take-IsHeap e = record {
    blocks = unfold take_block in take-Seg;
    free = unfold take_block in take-count e;
    word = unfold take_block in v.word;
    aligned = unfold take_block in v.aligned;
    not_null = unfold take_block in v.not_null;
  }

  module _ (n size : ℕ) (some_bytes : 24 ≤ n) (n_aligned : n % 4 ≡ 0) (room : size + 20 ≤ n)
      (fits : n ≤ at.block.size) where
    old_used :
        used_of h.kheap_start bs
        ≡ used_of h.kheap_start at.left ++ used_of (f.header + at.block.size) at.right
    old_used =
        rw
          (
            at.whole,
            used_of-append h.kheap_start at.left (at.block ∷ at.right),
            ← at.place,
            at.state,
          )
          refl

    header_aligned : f.header % 4 ≡ 0
    header_aligned = omega (
      arith,
      total-aligned h h.kheap_start f.header at.left (before_at v at),
      at.place,
      v.aligned,
    )

    pub split-Allocated :
        n + 24 ≤ at.block.size
        → h.free_list ≡ f.before ++ (f.header ∷ f.after)
        → Allocated size (f.header + 16) h (split_block h n f) bs
    split-Allocated rest e =
        let far : f.header + n + (at.block.size - n) ≡ f.header + at.block.size = omega arith in
        let start : f.header + 16 - 16 ≡ f.header = omega arith in
        record {
          bs' = at.left ++ halves n some_bytes n_aligned rest;
          at = record {
            left = at.left;
            block = record { size = n; used = true };
            right = record { size = at.block.size - n; used = false } ∷ at.right;
            whole = unfold halves in refl;
            place = unfold split_block in omega (arith, at.place);
            state = refl;
          };
          old = rw (start, far) old_used;
          new =
              unfold halves in
              rw
                (
                  start,
                  used_of-append h.kheap_start at.left (halves n some_bytes n_aligned rest),
                  ← at.place,
                  far,
                )
                refl;
          room = room;
          behind_header = omega arith;
          aligned = omega (arith, header_aligned);
          heap = split-IsHeap n some_bytes n_aligned rest e;
          same_start = unfold split_block in refl;
          same_end = unfold split_block in refl;
        }

    pub take-Allocated :
        h.free_list ≡ f.before ++ (f.header ∷ f.after)
        → Allocated size (f.header + 16) h (take_block h f) bs
    take-Allocated e =
        let start : f.header + 16 - 16 ≡ f.header = omega arith in
        record {
          bs' = at.left ++ whole;
          at = record {
            left = at.left;
            block = record { size = at.block.size; used = true };
            right = at.right;
            whole = unfold whole in refl;
            place = unfold take_block in omega (arith, at.place);
            state = refl;
          };
          old = rw start old_used;
          new =
              unfold whole in
              rw (start, used_of-append h.kheap_start at.left whole, ← at.place) refl;
          room = omega arith;
          behind_header = omega arith;
          aligned = omega (arith, header_aligned);
          heap = take-IsHeap e;
          same_start = unfold take_block in refl;
          same_end = unfold take_block in refl;
        }
