-- ===== src/KernelStack/Tests.antt =====
-- Runs of kernel/mm/kernel_stack.c over pages that are always to be had, and instances of the theorems.
use it_works_os.Base.{ℕ, zero, suc, ◌+◌, ◌*◌, ◌^◌, ◌≤◌, ◌<◌, ◌≡◌, ◌⊎◌, refl, arith, some, [], ◌∷◌}
use it_works_os.Bitmap.{Bitmap, test, find_zero, set, word}
use it_works_os.Bits.{mask_test, mask_set}
use it_works_os.Kerror.{ok}
use it_works_os.KernelStack.{Pages, KernelStack, kstack_alloc, kstack_free, map_pages, unmap_pages}
use it_works_os.KernelStack.Slots.{IsReady, kstack_alloc-apart, kstack_free-kstack_alloc}

-- A state counts the pages in use.
abbrev plenty : Pages ℕ
plenty = record {
  alloc_page = λ w. (ok, 4096 * w, w + 1);
  kern_map = λ virt phys size flags w. (ok, w);
  kern_translate = λ virt w. (ok, 4096);
  kern_unmap = λ virt size w. (ok, w);
  free_page = λ phys w. (ok, w + 100);
}

abbrev slots : ℕ → Bitmap
slots taken = record { words = taken ∷ (0 ∷ []); nbits = 64; nelems = 2 }

abbrev blank : KernelStack
blank = record { base = 0; stack_pointer = 0; size = 0 }

abbrev stack_at : ℕ → KernelStack
stack_at base = record { base = base; stack_pointer = 0; size = 16384 }

none_taken : IsReady (slots 0)
none_taken = record {
  valid = record { storage = omega arith; small = omega arith; words_fit = fits };
  bits = refl;
}
  where
    fits : (i : ℕ) → word (slots 0) i < 2 ^ 32
    fits zero = omega arith
    fits (suc zero) = omega arith
    fits (suc (suc i)) = omega arith

kstack_alloc-apart_example : (0xF0000000 + 16384 ≤ 0xF0004000) ⊎ (0xF0004000 + 16384 ≤ 0xF0000000)
unfolding kstack_alloc map_pages find_zero set test mask_test mask_set
kstack_alloc-apart_example =
    kstack_alloc-apart plenty blank (stack_at 0xF0000000) blank (stack_at 0xF0004000)
      {bm1 = slots 1} {bm2 = slots 3} 1 5 9 none_taken refl refl

kstack_free-kstack_alloc_example :
    (bm'' : Bitmap) × (kstack_free plenty (some (stack_at 0xF0000000)) (slots 1) 5
      ≡ (ok, some blank, bm'', 405))
    × IsReady bm''
    × ((q : ℕ) → test bm'' q ≡ test (slots 0) q)
unfolding kstack_alloc map_pages unmap_pages find_zero set test mask_test mask_set
kstack_free-kstack_alloc_example =
    kstack_free-kstack_alloc plenty blank (stack_at 0xF0000000) {bm' = slots 1} 1 5 405 none_taken
      refl refl
