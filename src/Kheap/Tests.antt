-- ===== src/Kheap/Tests.antt =====
-- Runs of `kmalloc` and `kfree` on a small heap.
use it_works_os.Base.{
  ℕ, ◌+◌, ◌≡◌, ◌^◌, suc, zero, ◌<◌, ◌≤◌, ◌⊎◌, refl, arith, inr, true, false, List, [], ◌∷◌,
  if◌then◌else◌, ◌==◌,
}
use it_works_os.Bits.{mask_test}
use it_works_os.Kerror.{ok, inval, nomem}
use it_works_os.Layout.{kernel_lowmem_limit}
use it_works_os.Pmm.{Pmm}
use it_works_os.Pmm.Alloc.{NoRun}
use it_works_os.Pmm.Frames.{IsValid}
use it_works_os.Bits.Align.{align_up}
use it_works_os.Bitmap.{word, test}
use it_works_os.Bitmap.Range.Count.{count_clear}
use it_works_os.Kheap.{kheap_init, Kheap, kmalloc, kfree, block_size_of, first_fit}
use it_works_os.Kheap.Blocks.{Block, At, used_of}
use it_works_os.Kheap.Heap.{IsHeap}
use it_works_os.Kheap.Alloc.{AllocOutcome, kmalloc_lem}
use it_works_os.Kheap.Free.{Freed, kfree_lem}
use it_works_os.Kheap.Cycle.{Initialised, kfree-kmalloc, kheap_init_lem}

-- A block of 40 bytes in use at 4096 and a free one of 88 after it.
abbrev pub blocks : List Block
blocks = record { size = 40; used = true } ∷ record { size = 88; used = false } ∷ []

abbrev pub two_blocks : Kheap
two_blocks = record {
  sizes = λ a. if a == 4096 then 40 else 88;
  flags = λ a. if a == 4096 then 1 else 0;
  footers = λ a. if a == 4132 then 40 else 88;
  free_list = 4136 ∷ [];
  kheap_start = 4096;
  kheap_end = 4224;
}

pub two_blocks-IsHeap : IsHeap two_blocks blocks
unfolding mask_test
two_blocks-IsHeap = record {
  blocks = (
    record { header = refl; footer = refl; state = refl; large = omega arith; aligned = refl },
    (
      record { header = refl; footer = refl; state = refl; large = omega arith; aligned = refl },
      refl,
    ),
  );
  free = λ p. refl;
  word = omega arith;
  aligned = refl;
  not_null = omega arith;
}

kmalloc_lem_example : AllocOutcome 30 two_blocks blocks (kmalloc 30 two_blocks)
kmalloc_lem_example = kmalloc_lem 30 two_blocks blocks two_blocks-IsHeap (omega arith) (omega arith)

first_block : At 4096 4096 blocks true
first_block = record {
  left = [];
  block = record { size = 40; used = true };
  right = record { size = 88; used = false } ∷ [];
  whole = refl;
  place = refl;
  state = refl;
}

kfree_lem_example :
    ((4096 + 16 + 24 < 4224)
      × (h' : Kheap) × (kfree 4112 two_blocks ≡ (ok, h'))
      × Freed 4096 two_blocks h' blocks first_block)
    ⊎ ((4224 ≤ 4096 + 16 + 24) × (kfree 4112 two_blocks ≡ (inval, two_blocks)))
kfree_lem_example = kfree_lem 4096 two_blocks-IsHeap first_block

kmalloc_30 : kmalloc 30 two_blocks ≡ (inr 4152, (kmalloc 30 two_blocks).1)
unfolding kmalloc block_size_of first_fit align_up
kmalloc_30 = refl

kfree-kmalloc_example :
    (h'' : Kheap) × (kfree 4152 (kmalloc 30 two_blocks).1 ≡ (ok, h''))
    × (bs'' : List Block) × IsHeap h'' bs''
    × (used_of 4096 bs'' ≡ (4096, 40) ∷ [])
kfree-kmalloc_example =
    kfree-kmalloc 30 two_blocks-IsHeap (omega arith) (omega arith) kmalloc_30 (omega arith)

abbrev low_memory : Pmm
low_memory = record {
  bm = record { words = 0 ∷ 0 ∷ 0 ∷ 0 ∷ 0 ∷ 0 ∷ 0 ∷ 0 ∷ []; nbits = 256; nelems = 0 };
  max_addr = 1048576;
  total_frames = 256;
  free_frames = 256;
}

words_fit : (i : ℕ) → word low_memory.bm i < 2 ^ 32
words_fit zero = omega arith
words_fit (suc zero) = omega arith
words_fit (suc (suc zero)) = omega arith
words_fit (suc (suc (suc zero))) = omega arith
words_fit (suc (suc (suc (suc zero)))) = omega arith
words_fit (suc (suc (suc (suc (suc zero))))) = omega arith
words_fit (suc (suc (suc (suc (suc (suc zero)))))) = omega arith
words_fit (suc (suc (suc (suc (suc (suc (suc zero))))))) = omega arith
words_fit (suc (suc (suc (suc (suc (suc (suc (suc i)))))))) = omega arith

low_memory-IsValid : IsValid low_memory
unfolding count_clear test mask_test
low_memory-IsValid = record {
  bitmap = record { storage = omega arith; small = omega arith; words_fit = words_fit };
  frames = refl;
  counted = refl;
}

kheap_init_lem_example :
    ((h' : Kheap) × (pmm' : Pmm) × (kheap_init low_memory two_blocks ≡ (ok, h', pmm'))
      × Initialised low_memory pmm' h')
    ⊎ ((kheap_init low_memory two_blocks ≡ (nomem, two_blocks, low_memory))
        × NoRun low_memory 0 kernel_lowmem_limit 256)
kheap_init_lem_example = kheap_init_lem low_memory two_blocks low_memory-IsValid
