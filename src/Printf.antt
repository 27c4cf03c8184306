-- ===== src/Printf.antt =====
-- Model of kernel/klib/printf.c. A format and the texts among the arguments are lists of bytes
-- without the final NUL; memory is a function from addresses, in which the destination lies. The
-- result none stands for an argument that is missing or of another kind than its conversion, which
-- C leaves undefined, or for a loop over digits that has not ended within its fuel.
pub mod Numeral
pub mod Buffer
pub mod Format
pub mod Tests
use it_works_os.Base.{
  ℕ, zero, suc, ◌+◌, ◌-◌, ◌*◌, ◌/◌, ◌%◌, ◌^◌, Bool, true, false, not, ◌&&◌, ◌||◌, Option, none,
  some, List, [], ◌∷◌, length, get_or, set, if◌then◌else◌, ◌==◌, ltb, leb,
}
use it_works_os.Memory.{write_byte}

-- What of `struct printf_buffer` changes, and the memory.
pub record Out : Type 0 where
  pub memory : ℕ → ℕ
  pub pos : ℕ
  pub total : ℕ

pub data Arg : Type 0 where
  word : ℕ → Arg
  text : Option (List ℕ) → Arg

-- The loop that extracts the digits, the lowest one first.
pub digit_of : Bool → ℕ → ℕ
digit_of uppercase digit =
    if ltb digit 10 then 0x30 + digit else (if uppercase then b'A' else b'a') + (digit - 10)

abbrev pub prepend : ℕ → Option (List ℕ) → Option (List ℕ)
prepend c none = none
prepend c (some cs) = some (c ∷ cs)

pub digits_from : ℕ → ℕ → Bool → ℕ → Option (List ℕ)
unfolding digit_of
digits_from zero base uppercase value = if value == 0 then some [] else none
digits_from (suc fuel) base uppercase value =
    let rest = digits_from fuel base uppercase (value / base) in
    if value == 0 then some [] else prepend (digit_of uppercase (value % base)) rest

-- `reverse`, `k` rounds from `i` on.
pub reverse_from : ℕ → ℕ → ℕ → List ℕ → List ℕ
reverse_from len zero i str = str
reverse_from len (suc k) i str =
    let tmp = get_or str i 0 in
    reverse_from len k (i + 1) (set (set str i (get_or str (len - i - 1) 0)) (len - i - 1) tmp)

pub reverse : List ℕ → List ℕ
unfolding reverse_from
reverse str = reverse_from (length str) (length str / 2) 0 str

module _ (buf size : ℕ) where
  pub buffer_putc : ℕ → Out → Out
  unfolding write_byte
  buffer_putc c b =
      if ltb 0 size && ltb b.pos (size - 1)
      then record {
        memory = write_byte b.memory (buf + b.pos) c;
        pos = b.pos + 1;
        total = (b.total + 1) % 2 ^ 32;
      }
      else record b { total = (b.total + 1) % 2 ^ 32 }

  pub buffer_puts : List ℕ → Out → Out
  unfolding buffer_putc
  buffer_puts [] b = b
  buffer_puts (c ∷ str) b = buffer_puts str (buffer_putc c b)

  pub buffer_finish : Out → Out
  unfolding write_byte
  buffer_finish b =
      if ltb 0 size
      then record b {
        memory =
            if ltb b.pos size
            then write_byte b.memory (buf + b.pos) 0
            else write_byte b.memory (buf + (size - 1)) 0;
      }
      else b

  -- The end of `format_uint`, at the digits.
  abbrev pub put_digits : Option (List ℕ) → Out → Option Out
  put_digits none b = none
  put_digits (some tmp) b = some (buffer_puts (reverse tmp) b)

  pub format_uint : ℕ → ℕ → Bool → Out → Option Out
  format_uint value base uppercase b =
      if value == 0
      then some (buffer_putc b'0' b)
      else put_digits (digits_from 32 base uppercase value) b

  -- The bits of an `int`.
  pub format_int : ℕ → Out → Option Out
  format_int value b =
      if leb (2 ^ 31) value
      then format_uint ((2 ^ 32 - value) % 2 ^ 32) 10 false (buffer_putc b'-' b)
      else format_uint value 10 false b

  abbrev pub left_with : List Arg → Option Out → Option (Out × List Arg)
  left_with args none = none
  left_with args (some b) = some (b, args)

  -- `va_arg` of a number and of a text
  abbrev pub with_word : List Arg → (ℕ → Option Out) → Option (Out × List Arg)
  with_word (word n ∷ args) f = left_with args (f n)
  with_word _ f = none

  abbrev pub null_text : List ℕ
  null_text = b'(' ∷ (b'n' ∷ (b'u' ∷ (b'l' ∷ (b'l' ∷ (b')' ∷ [])))))

  abbrev pub or_null : Option (List ℕ) → List ℕ
  or_null none = null_text
  or_null (some s) = s

  abbrev pub with_text : List Arg → (List ℕ → Option Out) → Option (Out × List Arg)
  with_text (text s ∷ args) f = left_with args (f (or_null s))
  with_text _ f = none

  -- The switch, with the arguments that are left.
  pub convert : ℕ → List Arg → Out → Option (Out × List Arg)
  convert d args b =
      if d == b'%'
      then some (buffer_putc b'%' b, args)
      else if d == b'c'
      then with_word args (λ c. some (buffer_putc (c % 2 ^ 8) b))
      else if d == b's'
      then with_text args (λ s. some (buffer_puts s b))
      else if (d == b'd') || (d == b'i')
      then with_word args (λ value. format_int value b)
      else if d == b'u'
      then with_word args (λ value. format_uint value 10 false b)
      else if d == b'x'
      then with_word args (λ value. format_uint value 16 false b)
      else if d == b'X'
      then with_word args (λ value. format_uint value 16 true b)
      else if d == b'o'
      then with_word args (λ value. format_uint value 8 false b)
      else if d == b'p'
      then with_word args (λ value. format_uint value 16 false (buffer_puts (b'0' ∷ (b'x' ∷ [])) b))
      else some (buffer_putc d (buffer_putc b'%' b), args)

  abbrev pub and_then : Option (Out × List Arg) → (List Arg → Out → Option Out) → Option Out
  and_then none next = none
  and_then (some (b, args)) next = next args b

  -- The loop over the format.
  pub format_from : List ℕ → List Arg → Out → Option Out
  format_from [] args b = some b
  format_from (c ∷ []) args b = if not (c == b'%') then some (buffer_putc c b) else some b
  format_from (c ∷ (d ∷ fmt)) args b =
      let plain = format_from (d ∷ fmt) args (buffer_putc c b) in
      let converted = and_then (convert d args b) (format_from fmt) in
      if not (c == b'%') then plain else converted

  abbrev pub returned : Option Out → Option (ℕ × (ℕ → ℕ))
  returned none = none
  returned (some b) = let b' = buffer_finish b in some (b'.total, b'.memory)

  -- The bits of the `int` that is returned, and the memory.
  pub vsnprintf : List ℕ → List Arg → (ℕ → ℕ) → Option (ℕ × (ℕ → ℕ))
  vsnprintf fmt args m = returned (format_from fmt args (record { memory = m; pos = 0; total = 0 }))

  pub snprintf : List ℕ → List Arg → (ℕ → ℕ) → Option (ℕ × (ℕ → ℕ))
  unfolding vsnprintf
  snprintf fmt args m = vsnprintf fmt args m
