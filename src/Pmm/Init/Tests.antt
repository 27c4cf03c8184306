-- ===== src/Pmm/Init/Tests.antt =====
-- A machine with 2 MiB of usable memory and a kernel image of 64 KiB at 1 MiB.
use it_works_os.Base.{
  ℕ, zero, suc, ◌+◌, ◌/◌, ◌^◌, ◌<◌, ◌≡◌, not, ◌||◌, some, List, [], ◌∷◌, arith, replicate, get_or,
}
use it_works_os.Bits.Align.{align_up}
use it_works_os.Kerror.{ok}
use it_works_os.Bitmap.{test}
use it_works_os.Pmm.{Pmm}
use it_works_os.Pmm.Frames.{IsValid}
use it_works_os.Pmm.Init.{Entry, max_end, total_of, init}
use it_works_os.Pmm.Init.Loops.{is_usable}
use it_works_os.Pmm.Init.Map.{is_kept, IsPlaced, init_lem}

abbrev ram : Entry
ram = record { base = 0; length = 0x200000; type = 1; attr = 1 }

abbrev flash : Entry
flash = record { base = 0xffff0000; length = 0x10000; type = 2; attr = 1 }

abbrev words : List ℕ
words = replicate 16 7

abbrev cold : Pmm
cold = record {
  bm = record { words = []; nbits = 0; nelems = 0 };
  max_addr = 0;
  total_frames = 0;
  free_frames = 0;
}

words_fit : (n i : ℕ) → get_or (replicate n 7) i 0 < 2 ^ 32
words_fit zero i = omega arith
words_fit (suc n) zero = omega arith
words_fit (suc n) (suc i) = words_fit n i

placed : IsPlaced 0xC0100000 0xC0110000 words (total_of (max_end (ram ∷ flash ∷ []) 0))
unfolding total_of max_end align_up
placed = record {
  higher_half = omega arith;
  in_order = omega arith;
  address = omega arith;
  few = omega arith;
  storage = omega arith;
  words_fit = words_fit 16;
}

init_lem_example :
    let (err, pmm) = init 0xC0100000 0xC0110000 words cold (some (ram ∷ flash ∷ [])) in
    (err ≡ ok)
    × IsValid pmm
    × (pmm.total_frames ≡ (max_end (ram ∷ flash ∷ []) 0 + 4095) / 4096)
    × ((q : ℕ)
        → q < pmm.total_frames
        → test pmm.bm q ≡ (
            not (is_usable (ram ∷ flash ∷ []) q)
            || is_kept 0xC0100000 0xC0110000 pmm.total_frames q))
init_lem_example = init_lem cold ram (flash ∷ []) (omega arith) placed
