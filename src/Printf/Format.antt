-- ===== src/Printf/Format.antt =====
-- The text that a format stands for, and what vsnprintf of kernel/klib/printf.c does with it.
use it_works_os.Base.{
  ℕ, ◌+◌, ◌-◌, ◌%◌, ◌^◌, ◌≤◌, ◌<◌, ◌≡◌, ◌⊎◌, inl, inr, refl, ap, sym, ◌∙◌, arith, Bool, true, false,
  not, ◌||◌, Option, none, some, List, [], ◌∷◌, ◌++◌, length, get_or, if◌then◌else◌, ◌==◌, ltb, leb,
  min, Bool-cases,
}
use it_works_os.Memory.{write_byte}
use it_works_os.Printf.Buffer.{Written, puts-append, puts-Written, puts-lt}
use it_works_os.Printf.{
  Out, Arg, word, text, digits_from, reverse, buffer_putc, buffer_puts, buffer_finish, put_digits,
  format_uint, format_int, or_null, with_word, with_text, left_with, convert, and_then, format_from,
  returned, vsnprintf,
}

-- The text of a number.
abbrev pub in_order : Option (List ℕ) → Option (List ℕ)
in_order none = none
in_order (some tmp) = some (reverse tmp)

abbrev pub numeral : ℕ → Bool → ℕ → Option (List ℕ)
numeral base uppercase v =
    if v == 0 then some (b'0' ∷ []) else in_order (digits_from 32 base uppercase v)

abbrev pub behind : List ℕ → Option (List ℕ) → Option (List ℕ)
behind s none = none
behind s (some t) = some (s ++ t)

abbrev pub signed : ℕ → Option (List ℕ)
signed v =
    if leb (2 ^ 31) v
    then behind (b'-' ∷ []) (numeral 10 false ((2 ^ 32 - v) % 2 ^ 32))
    else numeral 10 false v

abbrev pub and_args : List Arg → Option (List ℕ) → Option (List ℕ × List Arg)
and_args args none = none
and_args args (some t) = some (t, args)

abbrev pub of_word : List Arg → (ℕ → Option (List ℕ)) → Option (List ℕ × List Arg)
of_word (word n ∷ args) f = and_args args (f n)
of_word _ f = none

abbrev pub of_text : List Arg → Option (List ℕ × List Arg)
of_text (text s ∷ args) = some (or_null 0 0 s, args)
of_text _ = none

-- The text of a conversion, and the arguments that are left.
unfoldable pub conversion : ℕ → List Arg → Option (List ℕ × List Arg)
conversion d args =
    if d == b'%'
    then some (b'%' ∷ [], args)
    else if d == b'c'
    then of_word args (λ c. some (c % 2 ^ 8 ∷ []))
    else if d == b's'
    then of_text args
    else if (d == b'd') || (d == b'i')
    then of_word args signed
    else if d == b'u'
    then of_word args (numeral 10 false)
    else if d == b'x'
    then of_word args (numeral 16 false)
    else if d == b'X'
    then of_word args (numeral 16 true)
    else if d == b'o'
    then of_word args (numeral 8 false)
    else if d == b'p'
    then of_word args (λ value. behind (b'0' ∷ (b'x' ∷ [])) (numeral 16 false value))
    else some (b'%' ∷ (d ∷ []), args)

abbrev pub and_rest : Option (List ℕ × List Arg) → (List Arg → Option (List ℕ)) → Option (List ℕ)
and_rest none next = none
and_rest (some (t, args)) next = behind t (next args)

-- The text of a format with its arguments: a lone % at the end stands for nothing.
unfoldable pub render : List ℕ → List Arg → Option (List ℕ)
unfolding conversion
render [] args = some []
render (c ∷ []) args = if not (c == b'%') then some (c ∷ []) else some []
render (c ∷ (d ∷ fmt)) args =
    let plain = behind (c ∷ []) (render (d ∷ fmt) args) in
    let converted = and_rest (conversion d args) (render fmt) in
    if not (c == b'%') then plain else converted

module _ (buf size : ℕ) where
  abbrev put : Option (List ℕ) → Out → Option Out
  put none b = none
  put (some t) b = some (buffer_puts buf size t b)

  abbrev put_with : Option (List ℕ × List Arg) → Out → Option (Out × List Arg)
  put_with none b = none
  put_with (some (t, args)) b = some (buffer_puts buf size t b, args)

  put-behind :
      (s : List ℕ) (o : Option (List ℕ)) (b : Out)
      → put (behind s o) b ≡ put o (buffer_puts buf size s b)
  put-behind s none b = refl
  put-behind s (some t) b = ap some (puts-append buf size s t b)

  choose :
      (t : Bool) {x y : Option Out} (x' y' : Option (List ℕ)) (b : Out)
      → x ≡ put x' b
      → y ≡ put y' b
      → (if t then x else y) ≡ put (if t then x' else y') b
  choose true x' y' b ex ey = ex
  choose false x' y' b ex ey = ey

  choose_with :
      (t : Bool) {x y : Option (Out × List Arg)} (x' y' : Option (List ℕ × List Arg)) (b : Out)
      → x ≡ put_with x' b
      → y ≡ put_with y' b
      → (if t then x else y) ≡ put_with (if t then x' else y') b
  choose_with true x' y' b ex ey = ex
  choose_with false x' y' b ex ey = ey

  format_uint_lem :
      (v base : ℕ) (uppercase : Bool) (b : Out)
      → format_uint buf size v base uppercase b ≡ put (numeral base uppercase v) b
  unfolding format_uint buffer_puts
  format_uint_lem v base uppercase b =
      choose (v == 0) (some (b'0' ∷ [])) (in_order (digits_from 32 base uppercase v)) b refl
        (digits (digits_from 32 base uppercase v))
    where
      digits : (o : Option (List ℕ)) → put_digits buf size o b ≡ put (in_order o) b
      digits none = refl
      digits (some tmp) = refl

  format_int_lem : (v : ℕ) (b : Out) → format_int buf size v b ≡ put (signed v) b
  unfolding format_int buffer_puts
  format_int_lem v b =
      let rest = numeral 10 false ((2 ^ 32 - v) % 2 ^ 32) in
      choose (leb (2 ^ 31) v) (behind (b'-' ∷ []) rest) (numeral 10 false v) b
        (format_uint_lem ((2 ^ 32 - v) % 2 ^ 32) 10 false (buffer_putc buf size b'-' b)
          ∙ sym (put-behind (b'-' ∷ []) rest b))
        (format_uint_lem v 10 false b)

  left_with_lem :
      (args : List Arg) (o : Option (List ℕ)) (r : Option Out) (b : Out)
      → r ≡ put o b
      → left_with buf size args r ≡ put_with (and_args args o) b
  left_with_lem args none r b e = ap (left_with buf size args) e
  left_with_lem args (some t) r b e = ap (left_with buf size args) e

  with_word_lem :
      (args : List Arg) (f : ℕ → Option Out) (g : ℕ → Option (List ℕ)) (b : Out)
      → ((n : ℕ) → f n ≡ put (g n) b)
      → with_word buf size args f ≡ put_with (of_word args g) b
  with_word_lem [] f g b same = refl
  with_word_lem (word n ∷ args) f g b same = left_with_lem args (g n) (f n) b (same n)
  with_word_lem (text s ∷ args) f g b same = refl

  with_text_lem :
      (args : List Arg) (b : Out)
      → with_text buf size args (λ s. some (buffer_puts buf size s b)) ≡ put_with (of_text args) b
  with_text_lem [] b = refl
  with_text_lem (word n ∷ args) b = refl
  with_text_lem (text none ∷ args) b = refl
  with_text_lem (text (some s) ∷ args) b = refl

  pointer_lem :
      (v : ℕ) (b : Out)
      → format_uint buf size v 16 false (buffer_puts buf size (b'0' ∷ (b'x' ∷ [])) b)
        ≡ put (behind (b'0' ∷ (b'x' ∷ [])) (numeral 16 false v)) b
  pointer_lem v b =
      format_uint_lem v 16 false (buffer_puts buf size (b'0' ∷ (b'x' ∷ [])) b)
      ∙ sym (put-behind (b'0' ∷ (b'x' ∷ [])) (numeral 16 false v) b)

  convert_lem :
      (d : ℕ) (args : List Arg) (b : Out)
      → convert buf size d args b ≡ put_with (conversion d args) b
  unfolding convert conversion buffer_puts
  convert_lem d args b = choose_with (d == b'%') _ _ b refl (
      choose_with (d == b'c') _ _ b
        (with_word_lem args _ (λ c. some (c % 2 ^ 8 ∷ [])) b (λ n. refl))
        (choose_with (d == b's') _ _ b (with_text_lem args b) (
          choose_with ((d == b'd') || (d == b'i')) _ _ b
            (with_word_lem args _ signed b (λ n. format_int_lem n b))
            (choose_with (d == b'u') _ _ b
              (with_word_lem args _ (numeral 10 false) b (λ n. format_uint_lem n 10 false b))
              (choose_with (d == b'x') _ _ b
                (with_word_lem args _ (numeral 16 false) b (λ n. format_uint_lem n 16 false b))
                (choose_with (d == b'X') _ _ b
                  (with_word_lem args _ (numeral 16 true) b (λ n. format_uint_lem n 16 true b))
                  (choose_with (d == b'o') _ _ b
                    (with_word_lem args _ (numeral 8 false) b (λ n. format_uint_lem n 8 false b))
                    (choose_with (d == b'p') _ _ b
                      (with_word_lem args _
                        (λ value. behind (b'0' ∷ (b'x' ∷ [])) (numeral 16 false value)) b
                        (λ n. pointer_lem n b))
                      refl))))))))

  rest_lem :
      (fmt : List ℕ) (o : Option (List ℕ × List Arg)) (b : Out)
      → ((args : List Arg) (b' : Out) → format_from buf size fmt args b' ≡ put (render fmt args) b')
      → and_then buf size (put_with o b) (format_from buf size fmt)
        ≡ put (and_rest o (render fmt)) b
  rest_lem fmt none b next = refl
  rest_lem fmt (some (t, args)) b next =
      next args (buffer_puts buf size t b) ∙ sym (put-behind t (render fmt args) b)

  format_from_lem :
      (fmt : List ℕ) (args : List Arg) (b : Out)
      → format_from buf size fmt args b ≡ put (render fmt args) b
  unfolding format_from render buffer_puts
  format_from_lem [] args b = refl
  format_from_lem (c ∷ []) args b = choose (not (c == b'%')) (some (c ∷ [])) (some []) b refl refl
  format_from_lem (c ∷ (d ∷ fmt)) args b =
      choose (not (c == b'%')) (behind (c ∷ []) (render (d ∷ fmt) args))
        (and_rest (conversion d args) (render fmt)) b
        (format_from_lem (d ∷ fmt) args (buffer_putc buf size c b)
          ∙ sym (put-behind (c ∷ []) (render (d ∷ fmt) args) b))
        (ap (λ r. and_then buf size r (format_from buf size fmt)) (convert_lem d args b)
          ∙ rest_lem fmt (conversion d args) b (λ args' b'. format_from_lem fmt args' b'))

  -- The bytes of the text that have room lie at the start of the destination, with a NUL behind
  -- them, and no other byte of the memory has changed; a destination of size 0 is not written.
  abbrev pub Holds : List ℕ → (ℕ → ℕ) → (ℕ → ℕ) → Type 0
  Holds t m m' =
      ((size ≡ 0) × ((a : ℕ) → m' a ≡ m a))
      ⊎ ((0 < size)
          × ((i : ℕ) → i < min (length t) (size - 1) → m' (buf + i) ≡ get_or t i 0)
          × (m' (buf + min (length t) (size - 1)) ≡ 0)
          × ((a : ℕ) → (a < buf) ⊎ (buf + (min (length t) (size - 1) + 1) ≤ a) → m' a ≡ m a))

  abbrev pub Printed : Option (List ℕ) → (ℕ → ℕ) → Option (ℕ × (ℕ → ℕ)) → Type 0
  Printed none m r = r ≡ none
  Printed (some t) m r = (m' : ℕ → ℕ) × (r ≡ some (length t % 2 ^ 32, m')) × Holds t m m'

  finish_lem :
      (t : List ℕ) (m : ℕ → ℕ) (b : Out)
      → Written buf size t (record { memory = m; pos = 0; total = 0 }) b
      → Holds t m (buffer_finish buf size b).memory
  unfolding buffer_finish write_byte
  finish_lem t m b w = elim (Bool-cases (ltb 0 size)) [
    | inr e ↦ inl (ground arith, λ a. ground (arith, w.same a, w.pos))
    | inl e ↦
        let p : b.pos ≡ min (length t) (size - 1) = omega (arith, w.pos) in
        inr (
          ground arith,
          λ i less.
              let at : buf + i ≡ buf + (0 + i) = omega arith in
              ground (arith, p, ap b.memory at, w.bytes i (omega arith) (omega arith)),
          ground (arith, p),
          λ a out. ground (arith, p, w.same a),
        )
  ]

  finish-total : (b : Out) → (buffer_finish buf size b).total ≡ b.total
  unfolding buffer_finish
  finish-total b = ground arith

  -- vsnprintf returns the length of the whole text as a word of 32 bits. The destination gets its
  -- first bytes, as many as fit in front of a final NUL, and no byte outside is written.
  pub vsnprintf_lem :
      (fmt : List ℕ) (args : List Arg) (m : ℕ → ℕ)
      → Printed (render fmt args) m (vsnprintf buf size fmt args m)
  unfolding vsnprintf
  vsnprintf_lem fmt args m =
      let start : Out = record { memory = m; pos = 0; total = 0 } in
      go (render fmt args) (format_from buf size fmt args start) (format_from_lem fmt args start)
    where
      go :
          (o : Option (List ℕ)) (r : Option Out)
          → r ≡ put o (record { memory = m; pos = 0; total = 0 })
          → Printed o m (returned buf size r)
      go none r e = ap (returned buf size) e
      go (some t) r e =
          let start : Out = record { memory = m; pos = 0; total = 0 } in
          let b = buffer_puts buf size t start in
          let w = puts-Written buf size t start (omega arith) in
          let count : (buffer_finish buf size b).total ≡ length t % 2 ^ 32 =
            finish-total b ∙ omega (arith, w.total, puts-lt buf size t start (omega arith)) in
          (
            (buffer_finish buf size b).memory,
            ap (returned buf size) e ∙ ap (λ n. some (n, (buffer_finish buf size b).memory)) count,
            finish_lem t m b w,
          )
