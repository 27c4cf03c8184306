-- ===== src/Ringbuf/Tests.antt =====
-- A ring of four bytes, with the tail two short of the wrap of the counters.
use it_works_os.Base.{◌-◌, ◌^◌, ◌≡◌, refl, List, [], ◌∷◌, arith, true, false, none, some}
use it_works_os.Ringbuf.{
  Ringbuf, is_empty, is_full, len, slot, overwrite, push, pop, peek, step, run,
}
use it_works_os.Ringbuf.Calls.{Call, write_over, write, take_out, look}
use it_works_os.Ringbuf.Fifo
use it_works_os.Ringbuf.Refine.{IsValid, run_refines}

abbrev ring : Ringbuf
ring = record { buf = 3 ∷ 4 ∷ 1 ∷ 2 ∷ []; cap = 4; head = 1; tail = 2 ^ 32 - 2 }

abbrev calls : List Call
calls =
    look 2 true
    ∷ write 9
    ∷ write 8
    ∷ write_over 7
    ∷ take_out true
    ∷ take_out false
    ∷ look 1 true
    ∷ []

answers :
    run ring calls
    ≡ (true, some 3)
      ∷ (true, none)
      ∷ (false, none)
      ∷ (true, none)
      ∷ (true, some 2)
      ∷ (true, none)
      ∷ (true, some 7)
      ∷ []
unfolding run step push pop peek overwrite is_full is_empty len slot
answers = refl

ring-IsValid : IsValid 2 ring
unfolding len
ring-IsValid = record {
  power = refl;
  small = omega arith;
  width = omega arith;
  storage = refl;
  head_word = omega arith;
  tail_word = omega arith;
  fits = omega arith;
}

run_refines_example : run ring calls ≡ Fifo.run 4 (1 ∷ 2 ∷ 3 ∷ []) calls
unfolding len
run_refines_example = run_refines calls 2 ring ring-IsValid
