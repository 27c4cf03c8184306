-- ===== src/Ringbuf.antt =====
-- kernel/klib/ringbuf.c: a ring of bytes whose head and tail count on without being reset, in a
-- 32-bit `size_t`. A function that changes `*rb` returns it anew.
pub mod Calls
pub mod Fifo
pub mod Window
pub mod Refine
mod Tests
use it_works_os.Base.{
  ℕ, ◌+◌, ◌-◌, ◌%◌, ◌^◌, Bool, true, false, Option, none, some, List, [], ◌∷◌, bit_and,
  if◌then◌else◌, ◌==◌, leb, get_or, set,
}
use it_works_os.Ringbuf.Calls.{Call, write_over, write, take_out, look, Reply}

-- `ringbuf_t`; `buf` is the array that the field points to.
pub record Ringbuf : Type 0 where
  pub buf : List ℕ
  pub cap : ℕ
  pub head : ℕ
  pub tail : ℕ

abbrev pub add32 : ℕ → ℕ → ℕ
add32 a b = (a + b) % 2 ^ 32

abbrev pub sub32 : ℕ → ℕ → ℕ
sub32 a b = (a + 2 ^ 32 - b) % 2 ^ 32

unfoldable pub init : List ℕ → ℕ → Ringbuf
init storage cap = record { buf = storage; cap = cap; head = 0; tail = 0 }

pub is_empty : Ringbuf → Bool
is_empty rb = rb.head == rb.tail

pub len : Ringbuf → ℕ
len rb = sub32 rb.head rb.tail

pub is_full : Ringbuf → Bool
is_full rb = sub32 rb.head rb.tail == rb.cap

pub available : Ringbuf → ℕ
available rb = sub32 rb.cap (sub32 rb.head rb.tail)

-- `i & (rb->cap - 1)`
pub slot : Ringbuf → ℕ → ℕ
slot rb i = bit_and i (sub32 rb.cap 1)

pub overwrite : Ringbuf → ℕ → Ringbuf
overwrite rb byte =
    let tail = if is_full rb then add32 rb.tail 1 else rb.tail in
    record rb { buf = set rb.buf (slot rb rb.head) byte; head = add32 rb.head 1; tail = tail }

pub push : Ringbuf → ℕ → Bool × Ringbuf
push rb byte = if is_full rb then (false, rb) else (true, overwrite rb byte)

-- `out` tells whether the pointer `data` is not null, and the option is what goes through it.
pub pop : Ringbuf → Bool → Bool × Option ℕ × Ringbuf
pop rb out = if is_empty rb then (false, none, rb) else (
  true,
  (if out then some (get_or rb.buf (slot rb rb.tail) 0) else none),
  record rb { tail = add32 rb.tail 1 },
)

pub peek : Ringbuf → ℕ → Bool → Bool × Option ℕ
peek rb index out =
    if leb (len rb) index
    then (false, none)
    else (true, (if out then some (get_or rb.buf (slot rb (add32 rb.tail index)) 0) else none))

-- One call of a client, and a sequence of them.
pub step : Ringbuf → Call → Reply × Ringbuf
step rb (write_over x) = ((true, none), overwrite rb x)
step rb (write x) = let (done, rb') = push rb x in ((done, none), rb')
step rb (take_out out) = let (done, x, rb') = pop rb out in ((done, x), rb')
step rb (look i out) = (peek rb i out, rb)

pub run : Ringbuf → List Call → List Reply
run rb [] = []
run rb (c ∷ cs) = let (r, rb') = step rb c in r ∷ run rb' cs
