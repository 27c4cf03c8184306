-- ===== src/Pmm/Tests.antt =====
-- A memory of 40 frames, of which 0 and 2 are allocated, and the theorems at it.
use it_works_os.Base.{
  ℕ, zero, suc, ◌+◌, ◌*◌, ◌^◌, ◌<◌, ◌≤◌, ◌≡◌, ◌⊎◌, refl, true, some, none, [], ◌∷◌, arith,
}
use it_works_os.Bits.{mask_test, mask_set}
use it_works_os.Kerror.{ok, nomem, inval}
use it_works_os.Bitmap.{Bitmap, word, set, test}
use it_works_os.Bitmap.Range.{scan, set_range, all_set}
use it_works_os.Bitmap.Range.Count.{count_clear}
use it_works_os.Pmm.{
  Pmm, addr_to_frame, frame_to_addr, validate_range, take_frames, free, frame_size, strict,
  fallback, start_frame, max_frame, search, alloc_strict, alloc,
}
use it_works_os.Pmm.Frames.{IsValid}
use it_works_os.Pmm.Free.{ReleaseOutcome, free_lem}
use it_works_os.Pmm.Alloc.{AllocOutcome, alloc_lem}
use it_works_os.Pmm.Cycle.{free-alloc, alloc-alloc}

abbrev bits : Bitmap
bits = record { words = 5 ∷ 0 ∷ []; nbits = 40; nelems = 0 }

abbrev memory : Pmm
memory = record { bm = bits; max_addr = 163840; total_frames = 40; free_frames = 38 }

abbrev after : Pmm
after = record memory { bm = record bits { words = 29 ∷ 0 ∷ [] }; free_frames = 36 }

abbrev later : Pmm
later = record memory { bm = record bits { words = 31 ∷ 0 ∷ [] }; free_frames = 35 }

words_fit : (i : ℕ) → word bits i < 2 ^ 32
words_fit zero = omega arith
words_fit (suc zero) = omega arith
words_fit (suc (suc i)) = omega arith

memory-IsValid : IsValid memory
unfolding count_clear test mask_test
memory-IsValid = record {
  bitmap = record { storage = omega arith; small = omega arith; words_fit = words_fit };
  frames = refl;
  counted = refl;
}

two_frames : alloc memory 0 0 2 strict true ≡ (ok, some 12288, after)
unfolding alloc alloc_strict search start_frame max_frame scan test mask_test take_frames set_range
    set mask_set frame_to_addr
two_frames = refl

one_more : alloc after 0 8192 1 fallback true ≡ (ok, some 4096, later)
unfolding alloc alloc_strict search start_frame max_frame scan test mask_test take_frames set_range
    set mask_set frame_to_addr addr_to_frame
one_more = refl

no_room : alloc memory 0 8192 2 strict true ≡ (nomem, none, memory)
unfolding alloc alloc_strict search start_frame max_frame scan test mask_test addr_to_frame
no_room = refl

double_free : free memory 4096 1 ≡ (inval, memory)
unfolding free validate_range addr_to_frame all_set test mask_test
double_free = refl

free_lem_example : ReleaseOutcome memory 8192 1 (free memory 8192 1)
free_lem_example = free_lem memory-IsValid 8192 1 (omega arith)

alloc_lem_example :
    AllocOutcome fallback memory 4096 16384 3 (alloc memory 4096 16384 3 fallback true)
alloc_lem_example =
    alloc_lem memory-IsValid (omega arith) 4096 16384 fallback (omega arith) (omega arith)

free-alloc_example :
    let (e, pmm) = free after 12288 2 in
    (e ≡ ok) × IsValid pmm × (pmm.free_frames ≡ 38) × ((q : ℕ) → test pmm.bm q ≡ test bits q)
free-alloc_example = free-alloc memory-IsValid (omega arith) strict 0 0 two_frames

alloc-alloc_example : (12288 + 2 * frame_size ≤ 4096) ⊎ (4096 + 1 * frame_size ≤ 12288)
alloc-alloc_example =
    alloc-alloc memory-IsValid (omega arith) strict 0 0 two_frames fallback 0 8192 1 (omega arith)
      one_more
