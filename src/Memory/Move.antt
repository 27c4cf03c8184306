-- ===== src/Memory/Move.antt =====
-- Copies of blocks that may overlap, kernel/klib/memory.c.
use it_works_os.Base.{
  ℕ, zero, suc, ◌+◌, ◌-◌, ◌≤◌, ◌≡◌, arith, ◌&&◌, ◌==◌, ltb, leb, if◌then◌else◌, inl, inr,
  Bool-cases, ◌∙◌,
}
use it_works_os.Memory.{write_byte, copy_up, copy_down, memmove}

-- Byte `x` after a copy of the memory before it.
abbrev pub copied : ℕ → ℕ → ℕ → (ℕ → ℕ) → ℕ → ℕ
copied dst src n m x = if leb dst x && ltb x (dst + n) then m (src + (x - dst)) else m x

copy_up_lem :
    (dst src n i : ℕ) (m : ℕ → ℕ) (x : ℕ)
    → dst ≤ src
    → copy_up dst src n i m x ≡ copied (dst + i) (src + i) n m x
unfolding copy_up write_byte
copy_up_lem dst src zero i m x h = ground arith
copy_up_lem dst src (suc n) i m x h =
    copy_up_lem dst src n (i + 1) (write_byte m (dst + i) (m (src + i))) x h
    ∙ elim (Bool-cases (x == dst + i)) [
      | inl e ↦
          let here : x ≡ dst + i = ground arith in
          let start : src + i + (dst + i - (dst + i)) ≡ src + i = omega arith in
          rw here (rw start (ground arith))
      | inr e ↦ elim (Bool-cases (ltb x (dst + i))) [
        | inl below ↦ ground arith
        | inr above ↦
            let same : src + (i + 1) + (x - (dst + (i + 1))) ≡ src + i + (x - (dst + i)) =
              ground arith in
            rw same (ground arith)
      ]
    ]

copy_down_lem :
    (dst src n : ℕ) (m : ℕ → ℕ) (x : ℕ) → src ≤ dst → copy_down dst src n m x ≡ copied dst src n m x
unfolding copy_down write_byte
copy_down_lem dst src zero m x h = ground arith
copy_down_lem dst src (suc n) m x h =
    copy_down_lem dst src n (write_byte m (dst + n) (m (src + n))) x h
    ∙ elim (Bool-cases (x == dst + n)) [
      | inl e ↦
          let here : x ≡ dst + n = ground arith in
          let last : src + (dst + n - dst) ≡ src + n = omega arith in
          rw here (rw last (ground arith))
      | inr e ↦ ground arith
    ]

-- `memmove` gives the block at `dst` the bytes that the one at `src` had, also where they overlap, and
-- changes no other byte.
pub memmove_lem : (dst src n : ℕ) (m : ℕ → ℕ) (x : ℕ) → memmove dst src n m x ≡ copied dst src n m x
unfolding memmove
memmove_lem dst src n m x = elim (Bool-cases (dst == src)) [
  | inl e ↦
      let here : dst ≡ src = ground arith in
      rw e (elim (Bool-cases (leb dst x)) [
        | inl inside ↦ let there : src + (x - dst) ≡ x = ground arith in rw there (ground arith)
        | inr outside ↦ ground arith
      ])
  | inr e ↦ elim (Bool-cases (ltb dst src)) [
    | inl up ↦
        let d : dst + 0 ≡ dst = omega arith in
        let s : src + 0 ≡ src = omega arith in
        rw (e, up) (rw (d, s) at (copy_up_lem dst src n 0 m x (ground arith)))
    | inr down ↦ rw (e, down) (copy_down_lem dst src n m x (ground arith))
  ]
]
