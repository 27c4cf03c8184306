-- ===== src/Ringbuf/Refine.antt =====
-- A ring over an array of a power of two bytes behaves as the queue of the bytes that it holds.
use it_works_os.Base.{
  ℕ, suc, ◌+◌, ◌-◌, ◌%◌, ◌^◌, ◌≤◌, ◌<◌, ◌≡◌, refl, inl, inr, arith, Bool, true, Option, none, List,
  [], ◌∷◌, ◌++◌, ap, sym, ◌∙◌, length, get_or, set, drop, length-set, Bool-cases, ◌==◌, leb,
}
use it_works_os.Bits.Mask.{bit_and_mask}
use it_works_os.Bits.{bit-pos, bit-lt}
use it_works_os.Ringbuf.{
  Ringbuf, add32, sub32, init, is_empty, is_full, len, slot, overwrite, push, pop, peek, step, run,
}
use it_works_os.Ringbuf.Calls.{Call, write_over, write, take_out, look, Reply}
use it_works_os.Ringbuf.Fifo
use it_works_os.Ringbuf.Fifo.{Fifo}
use it_works_os.Ringbuf.Window.{
  window, length-window, window_of_same, window-set, get_or-window, wrap-mod,
}

-- The capacity is 2^k and the array has that many bytes; the counters are words whose distance,
-- across their wrap, is at most the capacity.
pub record IsValid (k : ℕ) (rb : Ringbuf) : Type 0 where
  pub power : rb.cap ≡ 2 ^ k
  pub small : rb.cap < 2 ^ 32
  pub width : k ≤ 32
  pub storage : length rb.buf ≡ rb.cap
  pub head_word : rb.head < 2 ^ 32
  pub tail_word : rb.tail < 2 ^ 32
  pub fits : len rb ≤ rb.cap

abbrev pub contents : Ringbuf → Fifo
contents rb = window rb.buf rb.cap rb.tail (len rb)

pub length-contents : (rb : Ringbuf) → length (contents rb) ≡ len rb
length-contents rb = length-window rb.buf rb.cap rb.tail (len rb)

module _ {k : ℕ} {rb : Ringbuf} (v : IsValid k rb) where
  -- The mask gives the index of a position, wrapped or not.
  index : (x : ℕ) → slot rb x ≡ x % rb.cap
  unfolding slot
  index x =
      let m : sub32 rb.cap 1 ≡ rb.cap - 1 = omega (arith, v.power, v.small, bit-pos k) in
      rw (m, v.power) (bit_and_mask k x)

  wrapped : (x : ℕ) → x % 2 ^ 32 % rb.cap ≡ x % rb.cap
  wrapped x = rw v.power (wrap-mod k x v.width)

  -- The head is the position behind the last byte.
  head_at : rb.head % rb.cap ≡ (rb.tail + len rb) % rb.cap
  head_at =
      let e : rb.head ≡ (rb.tail + len rb) % 2 ^ 32 =
        unfold len in omega (arith, v.head_word, v.tail_word) in
      ap (λ (x : ℕ). x % rb.cap) e ∙ wrapped (rb.tail + len rb)

  full_iff : is_full rb ≡ (length (contents rb) == rb.cap)
  unfolding is_full len
  full_iff = rw (length-contents rb)

-- The two changes that the functions are made of: a byte is written at the head, and the byte at
-- the tail is given up.
written : Ringbuf → ℕ → Ringbuf
written r x = record r { buf = set r.buf (slot r r.head) x; head = add32 r.head 1 }

dropped : Ringbuf → Ringbuf
dropped r = record r { tail = add32 r.tail 1 }

module _ {k : ℕ} {r : Ringbuf} (v : IsValid k r) where
  module _ (x : ℕ) (room : len r < r.cap) where
    len-written : len (written r x) ≡ suc (len r)
    unfolding len written
    len-written = omega (arith, v.head_word, v.tail_word, room, v.small)

    written-IsValid : IsValid k (written r x)
    unfolding written
    written-IsValid = record {
      power = v.power;
      small = v.small;
      width = v.width;
      storage = omega (arith, length-set {0} r.buf (slot r r.head) x, v.storage);
      head_word = omega arith;
      tail_word = v.tail_word;
      fits = unfold written in omega (arith, len-written, room);
    }

    contents-written : contents (written r x) ≡ contents r ++ (x ∷ [])
    contents-written = rw len-written (
        unfold written in
        window-set r.buf r.cap x (len r) r.tail (slot r r.head) (omega (arith, v.storage)) room
          (index v r.head ∙ head_at v))

  module _ (some_bytes : 0 < len r) where
    len-dropped : suc (len (dropped r)) ≡ len r
    unfolding len dropped
    len-dropped = omega (arith, v.head_word, v.tail_word, some_bytes)

    dropped-IsValid : IsValid k (dropped r)
    unfolding dropped
    dropped-IsValid = record {
      power = v.power;
      small = v.small;
      width = v.width;
      storage = v.storage;
      head_word = v.head_word;
      tail_word = omega arith;
      fits = unfold dropped in omega (arith, len-dropped, v.fits);
    }

    contents-dropped : contents r ≡ get_or r.buf (slot r r.tail) 0 ∷ contents (dropped r)
    contents-dropped =
        rw (← len-dropped, index v r.tail)
          (unfold dropped in
            ap (λ (q : List ℕ). get_or r.buf (r.tail % r.cap) 0 ∷ q)
              (window_of_same r.buf r.cap (r.tail + 1) (add32 r.tail 1) (len (dropped r))
                (sym (wrapped v (r.tail + 1)))))

module _ {k : ℕ} {rb : Ringbuf} (v : IsValid k rb) where
  cap_pos : 0 < rb.cap
  cap_pos = omega (arith, v.power, bit-pos k)

  -- `ringbuf_overwrite` appends the byte, at the price of the oldest one where the ring is full.
  pub overwrite_refines :
      (x : ℕ)
      → (contents (overwrite rb x) ≡ Fifo.overwrite rb.cap (contents rb) x)
        × IsValid k (overwrite rb x)
  unfolding overwrite Fifo.overwrite dropped written slot
  overwrite_refines x = elim (Bool-cases (is_full rb)) [
    | inl full ↦
        let l : 0 < len rb = unfold is_full len in ground (arith, cap_pos) in
        let d = dropped-IsValid v l in
        let room : len (dropped rb) < rb.cap = omega (arith, len-dropped v l, v.fits) in
        let c = contents-written d x room in
        rw (← full_iff v, full)
          (
            c ∙ ap (λ (q : List ℕ). q ++ (x ∷ [])) (sym (ap (drop 1) (contents-dropped v l))),
            written-IsValid d x room,
          )
    | inr free ↦
        let room : len rb < rb.cap = unfold is_full len in ground (arith, v.fits) in
        rw (← full_iff v, free) (contents-written v x room, written-IsValid v x room)
  ]

  push_refines :
      (x : ℕ)
      → let (done, rb') = push rb x in
        ((done, contents rb') ≡ Fifo.push rb.cap (contents rb) x) × IsValid k rb'
  unfolding push Fifo.push
  push_refines x = elim (Bool-cases (is_full rb)) [
    | inl full ↦ rw (← full_iff v, full) (refl, v)
    | inr free ↦
        let o = overwrite_refines x in
        let e : contents (overwrite rb x) ≡ contents rb ++ (x ∷ []) =
          unfold Fifo.overwrite in rw (← full_iff v, free) at o.0 in
        rw (← full_iff v, free) (ap (λ (q : List ℕ). (true, q)) e, o.1)
  ]

  pop_refines :
      (out : Bool)
      → let (done, byte, rb') = pop rb out in
        ((done, byte, contents rb') ≡ Fifo.pop (contents rb) out) × IsValid k rb'
  unfolding pop Fifo.pop
  pop_refines out = elim (Bool-cases (is_empty rb)) [
    | inl empty ↦
        let z : len rb ≡ 0 = unfold is_empty len in ground (arith, v.tail_word) in
        let c : contents rb ≡ [] = ap (window rb.buf rb.cap rb.tail) z in rw (empty, c) (refl, v)
    | inr some_bytes ↦
        let l : 0 < len rb = unfold is_empty len in ground (arith, v.head_word, v.tail_word) in
        rw (some_bytes, contents-dropped v l)
          (unfold dropped in refl, unfold dropped in dropped-IsValid v l)
  ]

  pub peek_refines : (i : ℕ) (out : Bool) → peek rb i out ≡ Fifo.peek (contents rb) i out
  unfolding peek Fifo.peek
  peek_refines i out = elim (Bool-cases (leb (len rb) i)) [
    | inl past ↦ rw (length-contents rb, past)
    | inr inside ↦
        let g = get_or-window rb.buf rb.cap rb.tail (len rb) i (ground arith) in
        rw (length-contents rb, inside, g, index v (add32 rb.tail i), wrapped v (rb.tail + i))
  ]

  -- Each call answers as the queue does.
  step_refines :
      (c : Call)
      → let (r, rb') = step rb c in
        ((r, contents rb') ≡ Fifo.step rb.cap (contents rb) c) × IsValid k rb'
  unfolding step Fifo.step
  step_refines (write_over x) =
      let o = overwrite_refines x in (ap (λ (q : Fifo). ((true, none), q)) o.0, o.1)
  step_refines (write x) =
      let o = push_refines x in (ap (λ (p : Bool × Fifo). ((p.0, none), p.1)) o.0, o.1)
  step_refines (take_out out) =
      let o = pop_refines out in (ap (λ (p : Bool × Option ℕ × Fifo). ((p.0, p.1), p.2)) o.0, o.1)
  step_refines (look i out) = (ap (λ (p : Reply). (p, contents rb)) (peek_refines i out), v)

cap-step : (rb : Ringbuf) (c : Call) → (step rb c).1.cap ≡ rb.cap
unfolding step overwrite push pop
cap-step rb (write_over x) = refl
cap-step rb (write x) = ground arith
cap-step rb (take_out out) = ground arith
cap-step rb (look i out) = refl

-- No sequence of calls tells a valid ring from a queue of at most `cap` bytes: overwriting,
-- pushing, popping and peeking answer as on the queue of the bytes that the ring holds, also after
-- the counters have wrapped.
pub run_refines :
    (cs : List Call) (k : ℕ) (rb : Ringbuf)
    → IsValid k rb
    → run rb cs ≡ Fifo.run rb.cap (contents rb) cs
unfolding run Fifo.run
run_refines [] k rb v = refl
run_refines (c ∷ cs) k rb v =
    let s = step_refines v c in
    let cap = ap (λ (n : ℕ). Fifo.run n (contents (step rb c).1) cs) (cap-step rb c) in
    ap (λ (rs : List Reply). (step rb c).0 ∷ rs) (run_refines cs k (step rb c).1 s.1 ∙ cap)
    ∙ ap (λ (p : Reply × Fifo). p.0 ∷ Fifo.run rb.cap p.1 cs) s.0

-- `ringbuf_init` makes a valid, empty ring of any array of a power of two bytes.
pub init-IsValid :
    (k : ℕ) (storage : List ℕ)
    → k < 32
    → length storage ≡ 2 ^ k
    → IsValid k (init storage (2 ^ k)) × (contents (init storage (2 ^ k)) ≡ [])
unfolding init len
init-IsValid k storage h l = (
  record {
    power = refl;
    small = bit-lt 32 k h;
    width = omega arith;
    storage = l;
    head_word = omega arith;
    tail_word = omega arith;
    fits = unfold len in omega arith;
  },
  refl,
)
