-- ===== src/Ringbuf/Fifo.antt =====
-- The contract of the ring: a queue of at most `cap` bytes, the oldest first.
use it_works_os.Base.{
  ℕ, Bool, true, false, Option, none, some, List, [], ◌∷◌, ◌++◌, if◌then◌else◌, ◌==◌, leb, length,
  get_or, drop,
}
use it_works_os.Ringbuf.Calls.{Call, write_over, write, take_out, look, Reply}

abbrev pub Fifo : Type 0
Fifo = List ℕ

module _ (cap : ℕ) where
  -- A full queue loses its oldest byte.
  unfoldable pub overwrite : Fifo → ℕ → Fifo
  overwrite q x = (if length q == cap then drop 1 q else q) ++ (x ∷ [])

  unfoldable pub push : Fifo → ℕ → Bool × Fifo
  push q x = if length q == cap then (false, q) else (true, q ++ (x ∷ []))

-- The byte is passed on only where it is asked for.
unfoldable pub pop : Fifo → Bool → Bool × Option ℕ × Fifo
pop [] out = (false, none, [])
pop (x ∷ q) out = (true, (if out then some x else none), q)

unfoldable pub peek : Fifo → ℕ → Bool → Bool × Option ℕ
peek q i out =
    if leb (length q) i then (false, none) else (true, (if out then some (get_or q i 0) else none))

unfoldable pub step : ℕ → Fifo → Call → Reply × Fifo
step cap q (write_over x) = ((true, none), overwrite cap q x)
step cap q (write x) = let (done, q') = push cap q x in ((done, none), q')
step cap q (take_out out) = let (done, x, q') = pop q out in ((done, x), q')
step cap q (look i out) = (peek q i out, q)

unfoldable pub run : ℕ → Fifo → List Call → List Reply
run cap q [] = []
run cap q (c ∷ cs) = let (r, q') = step cap q c in r ∷ run cap q' cs
