-- ===== src/Irq/Tests.antt =====
-- Interrupt numbers from an empty table, with a chip that writes a log.
use it_works_os.Base.{
  ℕ, zero, suc, true, ◌+◌, ◌^◌, ◌<◌, ◌≡◌, refl, some, none, List, [], ◌∷◌, arith, ◌==◌,
  if◌then◌else◌, replicate,
}
use it_works_os.Bits.{mask_test, mask_set, mask_clear}
use it_works_os.Kerror.{ok}
use it_works_os.Bitmap.{Bitmap, word, set, clear, test}
use it_works_os.Bitmap.Range.{scan, set_range, clear_range, all_set}
use it_works_os.Irq.{
  Irq, IrqDesc, IrqChip, IrqMap, put, irq_is_allocated, irq_alloc_range, irq_free_range,
  irq_request, irq_dispatch, irq_map_hwirq_to_irq, irq_map_init, irq_map_destroy,
}
use it_works_os.Irq.Alloc.{IsValid}
use it_works_os.Irq.Request.{dispatch-request}

abbrev Log : Type 0
Log = List ℕ

abbrev chip : IrqChip Log
chip = record {
  handle_vector = λ vector w. (ok, vector, w);
  disable = λ hwirq w. w;
  enable = λ hwirq w. w;
  eoi = λ hwirq w. (1000 + hwirq) ∷ w;
}

abbrev table : List ℕ → Bitmap
table ws = record { words = ws; nbits = 256; nelems = 8 }

abbrev blank : IrqDesc Log
blank = record { hwirq = 0; map = none; chip = none; handler = none; dev_id = 0 }

abbrev lines : IrqMap
lines = record { first_hwirq = 0; first_irq = 0; count = 4 }

-- No number is allocated.
abbrev fresh : Irq Log
fresh = record { allocated = table (replicate 8 0); descs = λ _. blank }

-- Four numbers, of which 2 is configured.
abbrev four : Irq Log
four = record {
  allocated = table (15 ∷ replicate 7 0);
  descs =
      λ i. if i == 2 then record blank { hwirq = 2; map = some lines; chip = some chip } else blank;
}

abbrev beep : ℕ → Log → Log
beep dev w = dev ∷ w

abbrev beeping : Irq Log
beeping = record four {
  descs = λ i.
      if i == 2
      then record { hwirq = 2; map = some lines; chip = some chip; handler = some beep; dev_id = 7 }
      else four.descs i;
}

words_fit : (w n i : ℕ) → w < 16 → word (table (w ∷ replicate n 0)) i < 2 ^ 32
words_fit w n zero h = omega arith
words_fit w zero (suc i) h = omega arith
words_fit w (suc n) (suc i) h = words_fit 0 n i (omega arith)

table-IsValid :
    (w : ℕ) (descs : ℕ → IrqDesc Log)
    → w < 16
    → IsValid (record { allocated = table (w ∷ replicate 7 0); descs = descs })
table-IsValid w descs h = record {
  bitmap = record {
    storage = omega arith;
    small = omega arith;
    words_fit = λ i. words_fit w 7 i h;
  };
  bits = refl;
}

requested : irq_request 2 (some beep) 7 four ≡ (ok, beeping)
unfolding irq_request irq_is_allocated test mask_test put
requested = refl

to_two : irq_map_hwirq_to_irq lines 2 ≡ 2
unfolding irq_map_hwirq_to_irq
to_two = refl

dispatch-request_example : irq_dispatch chip lines 2 beeping [] ≡ (ok, 1002 ∷ 7 ∷ [])
dispatch-request_example =
    dispatch-request four 2 (some beep) 7 requested beep refl chip lines 2 2 [] [] refl to_two

mapped :
    irq_map_init 0 4 fresh
    ≡ (ok, some lines, record fresh { allocated = table (15 ∷ replicate 7 0) })
unfolding irq_map_init irq_alloc_range scan test mask_test set_range set mask_set
mapped = refl

destroyed : irq_map_destroy lines four ≡ (ok, record four { allocated = table (replicate 8 0) })
unfolding irq_map_destroy irq_free_range all_set test mask_test clear_range clear mask_clear
destroyed = refl

again :
    irq_alloc_range 4 true (record four { allocated = table (replicate 8 0) }) ≡ (ok, some 0, four)
unfolding irq_alloc_range scan test mask_test set_range set mask_set
again = refl
