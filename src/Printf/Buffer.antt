-- ===== src/Printf/Buffer.antt =====
-- What the destination of kernel/klib/printf.c holds after bytes were put into it.
use it_works_os.Base.{
  ℕ, zero, suc, ◌+◌, ◌-◌, ◌%◌, ◌^◌, ◌≤◌, ◌<◌, ◌≡◌, ◌⊎◌, refl, ap, ◌∙◌, arith, List, [], ◌∷◌, ◌++◌,
  length, get_or, if◌then◌else◌, ◌==◌, ltb, min,
}
use it_works_os.Memory.{write_byte}
use it_works_os.Printf.{Out, buffer_putc, buffer_puts}

module _ (buf size : ℕ) where
  -- The bytes `t` are behind those that were there, as far as there is room before the last byte.
  pub record Written (t : List ℕ) (b b' : Out) : Type 0 where
    pub pos : b'.pos ≡ min (b.pos + length t) (size - 1)
    pub total : b'.total % 2 ^ 32 ≡ (b.total + length t) % 2 ^ 32
    pub bytes :
        (i : ℕ) → i < length t → b.pos + i < size - 1 → b'.memory (buf + (b.pos + i)) ≡ get_or t i 0
    pub same : (a : ℕ) → (a < buf + b.pos) ⊎ (buf + b'.pos ≤ a) → b'.memory a ≡ b.memory a

  pub puts-append :
      (s t : List ℕ) (b : Out)
      → buffer_puts buf size (s ++ t) b ≡ buffer_puts buf size t (buffer_puts buf size s b)
  unfolding buffer_puts
  puts-append [] t b = refl
  puts-append (c ∷ s) t b = puts-append s t (buffer_putc buf size c b)

  pub putc-pos :
      (c : ℕ) (b : Out)
      → b.pos ≤ size - 1
      → (buffer_putc buf size c b).pos ≡ min (b.pos + 1) (size - 1)
  unfolding buffer_putc
  putc-pos c b h = ground arith

  putc-total : (c : ℕ) (b : Out) → (buffer_putc buf size c b).total ≡ (b.total + 1) % 2 ^ 32
  unfolding buffer_putc
  putc-total c b = ground arith

  putc-memory :
      (c a : ℕ) (b : Out)
      → (buffer_putc buf size c b).memory a
        ≡ (if ltb b.pos (size - 1) then if a == buf + b.pos then c else b.memory a else b.memory a)
  unfolding buffer_putc write_byte
  putc-memory c a b = ground arith

  pub puts-Written :
      (t : List ℕ) (b : Out) → b.pos ≤ size - 1 → Written t b (buffer_puts buf size t b)
  unfolding buffer_puts
  puts-Written [] b h = record {
    pos = omega arith;
    total = omega arith;
    bytes = λ i less room. absurd (omega arith);
    same = λ a out. refl;
  }
  puts-Written (c ∷ t) b h =
      let b1 = buffer_putc buf size c b in
      let p1 = putc-pos c b h in
      let rest = puts-Written t b1 (omega (arith, p1)) in
      record {
        pos = omega (arith, rest.pos, p1);
        total = omega (arith, rest.total, putc-total c b);
        bytes = λ i less room. byte_at c t b h rest i less room;
        same = λ a out.
            rest.same a (ground (arith, p1, rest.pos))
            ∙ ground (arith, putc-memory c a b, p1, rest.pos);
      }
    where
      byte_at :
          (c : ℕ) (t : List ℕ) (b : Out)
          → b.pos ≤ size - 1
          → Written t (buffer_putc buf size c b) (buffer_puts buf size t (buffer_putc buf size c b))
          → (i : ℕ) → i < suc (length t)
          → b.pos + i < size - 1
          → (buffer_puts buf size t (buffer_putc buf size c b)).memory (buf + (b.pos + i))
            ≡ get_or (c ∷ t) i 0
      byte_at c t b h rest zero less room =
          rest.same (buf + (b.pos + 0)) (ground (arith, putc-pos c b h))
          ∙ ground (arith, putc-memory c (buf + (b.pos + 0)) b)
      byte_at c t b h rest (suc i) less room =
          let p1 = putc-pos c b h in
          let e : buf + (b.pos + suc i) ≡ buf + ((buffer_putc buf size c b).pos + i) =
            omega (arith, p1) in
          ap (buffer_puts buf size t (buffer_putc buf size c b)).memory e
          ∙ rest.bytes i (omega arith) (omega (arith, p1))

  -- The count stays a word of 32 bits.
  pub puts-lt :
      (t : List ℕ) (b : Out) → b.total < 2 ^ 32 → (buffer_puts buf size t b).total < 2 ^ 32
  unfolding buffer_puts
  puts-lt [] b h = h
  puts-lt (c ∷ t) b h = puts-lt t (buffer_putc buf size c b) (omega (arith, putc-total c b))
