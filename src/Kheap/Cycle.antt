-- ===== src/Kheap/Cycle.antt =====
-- `kheap_init`, `kmalloc` and `kfree` of kernel/mm/kheap.c one after the other.
use it_works_os.Base.{
  ℕ, ◌+◌, ◌-◌, ◌*◌, ◌%◌, ◌^◌, ◌≤◌, ◌<◌, ◌≡◌, ◌≢◌, ◌⊎◌, refl, sym, ap, ◌∙◌, arith, inl, inr, Option,
  some, List, [], ◌∷◌,
}
use it_works_os.Bits.{mask_test}
use it_works_os.Kerror.{Kerror, ok, nomem}
use it_works_os.Layout.{kernel_lowmem_limit, phys_to_virt}
use it_works_os.Pmm.{Pmm, strict}
use it_works_os.Pmm.Frames.{IsValid}
use it_works_os.Pmm.Alloc
use it_works_os.Pmm.Alloc.{Granted, NoRun, alloc_lem}
use it_works_os.Kheap.{Kheap, write_field, init_at, kheap_init, kmalloc, kfree}
use it_works_os.Kheap.Blocks.{Block, used_of}
use it_works_os.Kheap.Heap.{IsHeap}
use it_works_os.Kheap.Take.{Allocated}
use it_works_os.Kheap.Alloc.{AllocOutcome, kmalloc_lem}
use it_works_os.Kheap.Merge.{vacant}
use it_works_os.Kheap.Free.{kfree_lem}

-- `kfree` of what `kmalloc` has just returned, unless it starts in the last 24 bytes of the heap,
-- succeeds, and the blocks in use are those from before `kmalloc`; the invariant is kept.
pub kfree-kmalloc :
    {h h' : Kheap} {bs : List Block} {ptr : ℕ} (size : ℕ)
    → IsHeap h bs
    → size ≢ 0
    → size + 23 < 2 ^ 32
    → kmalloc size h ≡ (inr ptr, h')
    → ptr + 24 < h.kheap_end
    → (h'' : Kheap) × (kfree ptr h' ≡ (ok, h''))
      × (bs'' : List Block) × IsHeap h'' bs''
      × (used_of h.kheap_start bs'' ≡ used_of h.kheap_start bs)
kfree-kmalloc {h} {h'} {bs} {ptr} size v some_bytes small got inside =
    go _ (kmalloc_lem size h bs v some_bytes small) got
  where
    Result : Type 0
    Result =
        (h'' : Kheap) × (kfree ptr h' ≡ (ok, h''))
        × (bs'' : List Block) × IsHeap h'' bs''
        × (used_of h.kheap_start bs'' ≡ used_of h.kheap_start bs)

    freed : Allocated size ptr h h' bs → Result
    freed a =
        let up : ptr - 16 + 16 ≡ ptr = omega (arith, a.behind_header) in
        elim (rw up at (kfree_lem (ptr - 16) a.heap a.at)) [
          | inl (_, h'', e, f) ↦ (h'', e, f.bs', f.heap, (rw a.same_start at f.new) ∙ sym a.old)
          | inr (over, _) ↦ absurd (omega (arith, a.behind_header, a.same_end))
        ]

    go : (r : (Kerror ⊎ ℕ) × Kheap) → AllocOutcome size h bs r → r ≡ (inr ptr, h') → Result
    go (r, t) (inl (ptr', e, a)) eq =
        let same : ptr' ≡ ptr = cc in let heap : t ≡ h' = cc in freed (rw heap at (rw same at a))
    go (r, t) (inr (e, _, _)) eq = cc

write_field_same : (f : ℕ → ℕ) (a v : ℕ) → write_field f a v a ≡ v
unfolding write_field
write_field_same f a v = ground arith

-- The fields that `kheap_init` writes at a page of low memory are those of one free block.
one_block-IsHeap :
    (h : Kheap) (pmm : Pmm) (a : ℕ)
    → a % 4096 ≡ 0
    → a + 2 ^ 20 ≤ kernel_lowmem_limit
    → (h' : Kheap) × (init_at h (ok, some a, pmm) ≡ (ok, h', pmm))
      × IsHeap h' (vacant (2 ^ 20) ∷ [])
      × (h'.kheap_start ≡ a + 0xC0000000)
      × (h'.kheap_end ≡ a + 0xC0000000 + 2 ^ 20)
unfolding write_field mask_test
one_block-IsHeap h pmm a aligned low =
    let start : (a + 0xC0000000) % 2 ^ 32 ≡ a + 0xC0000000 = omega (arith, low) in
    let end : (a + 0xC0000000 + 2 ^ 20) % 2 ^ 32 ≡ a + 0xC0000000 + 2 ^ 20 = omega (arith, low) in
    (
      _,
      refl,
      record {
        blocks = (
          record {
            header = ground (arith, start, end, low);
            footer = ground (arith, start, end, low);
            state = rw (write_field_same h.flags (phys_to_virt a) 0) refl;
            large = omega arith;
            aligned = refl;
          },
          rw start (omega (arith, end)),
        );
        free = λ p. refl;
        word = omega arith;
        aligned = omega (arith, start);
        not_null = omega (arith, start);
      },
      start,
      omega (arith, start, end),
    )

-- The heap is one free block in the 1 MiB of the first 256 frames in a row that are free in low
-- memory, as the kernel sees them, and those frames are taken.
pub record Initialised (pmm pmm' : Pmm) (h' : Kheap) : Type 0 where
  pub a : ℕ
  pub frames : Granted pmm 0 kernel_lowmem_limit 256 ok (some a) pmm'
  pub start : h'.kheap_start ≡ a + 0xC0000000
  pub end : h'.kheap_end ≡ a + 0xC0000000 + 2 ^ 20
  pub heap : IsHeap h' (vacant (2 ^ 20) ∷ [])

-- `kheap_init` takes the first 256 frames in a row that are free in low memory and gives a heap of one
-- free block in just their 1 MiB, which satisfies the invariant; or it is NOMEM without a change of the
-- heap and of the frames, and then low memory has no 256 free frames in a row.
pub kheap_init_lem :
    (pmm : Pmm) (h : Kheap)
    → IsValid pmm
    → ((h' : Kheap) × (pmm' : Pmm) × (kheap_init pmm h ≡ (ok, h', pmm')) × Initialised pmm pmm' h')
      ⊎ ((kheap_init pmm h ≡ (nomem, h, pmm)) × NoRun pmm 0 kernel_lowmem_limit 256)
unfolding kheap_init
kheap_init_lem pmm h v =
    go _ (alloc_lem v (omega arith) 0 kernel_lowmem_limit strict (omega arith) (omega arith))
  where
    go :
        (r : Kerror × Option ℕ × Pmm)
        → Alloc.AllocOutcome strict pmm 0 kernel_lowmem_limit 256 r
        → ((h' : Kheap) × (pmm' : Pmm) × (init_at h r ≡ (ok, h', pmm')) × Initialised pmm pmm' h')
          ⊎ ((init_at h r ≡ (nomem, h, pmm)) × NoRun pmm 0 kernel_lowmem_limit 256)
    go (e, o, pmm') (inl g) =
        let low : g.f * 4096 + 2 ^ 20 ≤ kernel_lowmem_limit = ground (arith, g.inside.below) in
        let (h', made, heap, start, end) = one_block-IsHeap h pmm' (g.f * 4096) (omega arith) low in
        inl (
          h',
          pmm',
          ap (λ x. init_at h (x, o, pmm')) g.success
              ∙ ap (λ x. init_at h (ok, x, pmm')) g.address
              ∙ made,
          record {
            a = g.f * 4096;
            frames = record {
              f = g.f;
              success = refl;
              address = refl;
              inside = g.inside;
              was_free = g.was_free;
              first = g.first;
              marks = g.marks;
              count = g.count;
              valid = g.valid;
            };
            start = start;
            end = end;
            heap = heap;
          },
        )
    go (e, o, pmm') (inr (no_run, (e_no, o_none, same))) = inr (
      ap (λ x. init_at h (x, o, pmm')) e_no
          ∙ ap (λ x. init_at h (nomem, x, pmm')) o_none
          ∙ ap (λ x. (nomem, h, x)) same,
      no_run,
    )
