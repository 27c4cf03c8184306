-- ===== src/Paging/Changed.antt =====
-- Ranges of changed entries in the page tables of kernel/arch/x86/mm.c.
use it_works_os.Base.{
  ℕ, suc, ◌+◌, ◌*◌, ◌/◌, ◌%◌, ◌^◌, ◌≤◌, ◌<◌, ◌≡◌, ◌⊎◌, inl, inr, refl, sym, ◌∙◌, arith, true, leb,
  Bool-cases, if◌then◌else◌,
}
use it_works_os.Kerror.{Kerror, ok, noent, nosup, is_err}
use it_works_os.Paging.{Machine, read_entry, is_present, is_large, pde_index, pte_index, walk}
use it_works_os.Paging.Space.{HasTable, table_of, IsSpace}

-- What `walk` returns for a page with an entry.
pub record Found (pd va : ℕ) (m : Machine) (pt pte : ℕ) : Type 0 where
  pub has : HasTable pd m (pde_index va)
  pub table_is : pt ≡ table_of pd m (pde_index va)
  pub present : is_present pte ≡ true
  pub entry_is : pte ≡ read_entry m pt (pte_index va)

abbrev pub WalkOutcome : ℕ → ℕ → Machine → Kerror ⊎ (ℕ × ℕ) → Type 0
WalkOutcome pd va m (inl e) = (e ≡ noent) ⊎ (e ≡ nosup)
WalkOutcome pd va m (inr (pt, pte)) = Found pd va m pt pte

pub walk_lem : (pd va : ℕ) (m : Machine) → WalkOutcome pd va m (walk pd va m)
unfolding walk
walk_lem pd va m = elim (Bool-cases (is_present (read_entry m pd (pde_index va)))) [
  | inr e ↦ rw e (inl refl)
  | inl e ↦ elim (Bool-cases (is_large (read_entry m pd (pde_index va)))) [
    | inl large ↦ rw (e, large) (inr refl)
    | inr small ↦
        elim (Bool-cases
          (is_present (read_entry m (table_of pd m (pde_index va)) (pte_index va)))) [
            | inr gone ↦ rw (e, small, gone) (inl refl)
            | inl here ↦
                rw (e, small, here)
                  (record { has = (e, small); table_is = refl; present = here; entry_is = refl })
          ]
  ]
]

module _ (after : ℕ × ℕ → Kerror ⊎ (ℕ × ℕ)) where
  -- From `m` to `m'`, the `k` pages from `va` on, which were mapped, are found as `after` says of what
  -- was found before, and no other page is changed.
  pub record Changed (pd va k : ℕ) (m m' : Machine) : Type 0 where
    pub space : IsSpace pd m'
    pub entries :
        (vb : ℕ)
        → va / 4096 ≤ vb / 4096
        → vb / 4096 < va / 4096 + k
        → (found : ℕ × ℕ) × (walk pd vb m ≡ inr found) × (walk pd vb m' ≡ after found)
    pub others :
        (vb : ℕ)
        → vb < 2 ^ 32
        → (vb / 4096 < va / 4096) ⊎ (va / 4096 + k ≤ vb / 4096)
        → walk pd vb m' ≡ walk pd vb m

  pub Changed-none : {pd : ℕ} (va : ℕ) {m : Machine} → IsSpace pd m → Changed pd va 0 m m
  Changed-none va v = record {
    space = v;
    entries = λ vb lo hi. absurd (omega arith);
    others = λ vb h out. refl;
  }

  Changed-suc :
      {pd va k : ℕ} {m m1 m' : Machine}
      → va + 4096 * (k + 1) ≤ 2 ^ 32
      → va % 4096 ≡ 0
      → Changed pd va 1 m m1
      → Changed pd (va + 4096) k m1 m'
      → Changed pd va (suc k) m m'
  Changed-suc {pd} {va} {k} {m} {m1} {m'} fits aligned a b = record {
    space = b.space;
    entries = λ vb lo hi. elim (Bool-cases (leb (vb / 4096) (va / 4096))) [
      | inl first ↦
          let (found, before, here) = a.entries vb lo (ground arith) in
          (found, before, b.others vb (omega arith) (inl (ground arith)) ∙ here)
      | inr later ↦
          let (found, before, here) = b.entries vb (ground arith) (omega arith) in
          (found, sym (a.others vb (omega arith) (inr (ground arith))) ∙ before, here)
    ];
    others = λ vb h out. b.others vb h (ground arith) ∙ a.others vb h (ground arith);
  }

  -- Pages are changed up to the first that has no entry.
  abbrev pub ChangeOutcome : ℕ → ℕ → ℕ → Machine → Kerror × Machine → Type 0
  ChangeOutcome pd va n m (e, m') =
      ((e ≡ ok) × Changed pd va n m m')
      ⊎ (((e ≡ noent) ⊎ (e ≡ nosup))
          × (k : ℕ) × (k < n)
          × (walk pd (va + 4096 * k) m ≡ inl e)
          × Changed pd va k m m')

  -- One page.
  abbrev pub StepOutcome : ℕ → ℕ → Machine → Kerror × Machine → Type 0
  StepOutcome pd va m (e, m') =
      ((e ≡ ok) × Changed pd va 1 m m')
      ⊎ (((e ≡ noent) ⊎ (e ≡ nosup)) × (walk pd va m ≡ inl e) × (m' ≡ m))

  module _ {pd n : ℕ} {m : Machine} (virt off : ℕ) (v : IsSpace pd m)
      (fits : virt + off + 4096 * suc n ≤ 2 ^ 32) (aligned : (virt + off) % 4096 ≡ 0) where
    later :
        (m1 : Machine)
        → Changed pd (virt + off) 1 m m1
        → (r : Kerror × Machine) → ChangeOutcome pd (virt + (off + 4096)) n m1 r
        → ChangeOutcome pd (virt + off) (suc n) m r
    later m1 first (e, m') outcome =
        let va : virt + (off + 4096) ≡ virt + off + 4096 = omega arith in
        elim (rw va at outcome) [
          | inl (e_ok, rest) ↦ inl (e_ok, Changed-suc (omega arith) aligned first rest)
          | inr (why, k, less, stop, rest) ↦
              let there : virt + off + 4096 + 4096 * k ≡ virt + off + 4096 * suc k = omega arith in
              inr (
                why,
                suc k,
                omega arith,
                sym (first.others (virt + off + 4096 * suc k) (omega arith) (inr (omega arith)))
                    ∙ rw there at stop,
                Changed-suc (omega arith) aligned first rest,
              )
        ]

    pub range_step :
        (r : Kerror × Machine) (rest : Machine → Kerror × Machine)
        → StepOutcome pd (virt + off) m r
        → ((m1 : Machine) → IsSpace pd m1 → ChangeOutcome pd (virt + (off + 4096)) n m1 (rest m1))
        → ChangeOutcome pd (virt + off) (suc n) m (if is_err r.0 then r else rest r.1)
    range_step (e, m1) rest (inl (e_ok, first)) go = rw e_ok (later m1 first _ (go m1 first.space))
    range_step (e, m1) rest (inr (why, stop, same)) go =
        let err : is_err e ≡ true = elim why [ inl h ↦ rw h refl | inr h ↦ rw h refl ] in
        let start : virt + off + 4096 * 0 ≡ virt + off = omega arith in
        rw err (inr (why, 0, omega arith, rw start stop, rw same (Changed-none (virt + off) v)))
