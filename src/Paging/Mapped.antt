-- ===== src/Paging/Mapped.antt =====
-- Ranges of mapped pages in the page tables of kernel/arch/x86/mm.c.
use it_works_os.Base.{
  ℕ, suc, ◌+◌, ◌-◌, ◌*◌, ◌/◌, ◌%◌, ◌^◌, ◌≤◌, ◌<◌, ◌≡◌, ◌⊎◌, inl, inr, refl, ap, sym, ◌∙◌, arith,
  true, false, leb, Bool-cases, if◌then◌else◌,
}
use it_works_os.Bits.{mask_test}
use it_works_os.Kerror.{Kerror, noent, nomem, nosup, exists}
use it_works_os.Paging.Pages.{NoPage}
use it_works_os.Paging.{
  Machine, read_entry, is_present, pde_index, walk, x86_vm_flags_to_pte, vm_user, vm_write,
}
use it_works_os.Paging.Space.{IsSpace}

-- The bits of an entry: present, writable as VM_WRITE says, for user code as VM_USER says.
abbrev pub permissions : ℕ → ℕ
permissions flags =
    1 + (if mask_test flags vm_write then 2 else 0) + (if mask_test flags vm_user then 4 else 0)

pub permissions_lem : (flags : ℕ) → x86_vm_flags_to_pte flags ≡ permissions flags
unfolding x86_vm_flags_to_pte
permissions_lem flags = elim (Bool-cases (mask_test flags vm_write)) [
  | inl e ↦ elim (Bool-cases (mask_test flags vm_user)) [
    | inl e' ↦ rw (e, e') refl
    | inr e' ↦ rw (e, e') refl
  ]
  | inr e ↦ elim (Bool-cases (mask_test flags vm_user)) [
    | inl e' ↦ rw (e, e') refl
    | inr e' ↦ rw (e, e') refl
  ]
]

pub permissions-bits : (flags : ℕ) → (permissions flags < 8) × (permissions flags % 2 ≡ 1)
permissions-bits flags = ground arith

-- What is found depends on the page alone.
pub walk-page : (pd va vb : ℕ) (m : Machine) → va / 4096 ≡ vb / 4096 → walk pd va m ≡ walk pd vb m
unfolding walk
walk-page pd va vb m e = let dir : va / 2 ^ 22 ≡ vb / 2 ^ 22 = omega arith in rw (dir, e) refl

-- An entry of a directory is as before, or new: present, writable, and for user code as VM_USER says.
abbrev pub Kept : ℕ → ℕ → ℕ → Type 0
Kept flags old new =
    (new ≡ old)
    ⊎ ((is_present old ≡ false)
        × (is_present new ≡ true)
        × (new % 4096 ≡ 3 + (if mask_test flags vm_user then 4 else 0)))

Kept-trans : (flags : ℕ) {a b c : ℕ} → Kept flags a b → Kept flags b c → Kept flags a c
Kept-trans flags (inl e) (inl e') = inl (e' ∙ e)
Kept-trans flags (inl e) (inr (absent, there, bits)) = inr (rw e at absent, there, bits)
Kept-trans flags (inr (absent, there, bits)) (inl e) = inr (absent, rw e there, rw e bits)
Kept-trans flags (inr (absent, there, bits)) (inr (gone, _, _)) = cc

-- The page at `va` cannot be mapped: it needs a table and no page of low memory is free (NOMEM), it
-- lies in a large page (NOSUP), or it is mapped already (EXISTS).
abbrev pub Stopped : ℕ → ℕ → Kerror → Machine → Type 0
Stopped pd va e m =
    ((e ≡ nomem) × (is_present (read_entry m pd (pde_index va)) ≡ false) × NoPage m.pmm)
    ⊎ ((e ≡ nosup) × (walk pd va m ≡ inl nosup))
    ⊎ ((e ≡ exists) × (found : ℕ × ℕ) × (walk pd va m ≡ inr found))

-- From `m` to `m'`, `k` pages from `va` on, which had no entry, are mapped to those from `pa` on, and
-- no other page is changed.
pub record Mapped (pd va pa flags k : ℕ) (m m' : Machine) : Type 0 where
  pub space : IsSpace pd m'
  pub fresh :
      (vb : ℕ) → va / 4096 ≤ vb / 4096 → vb / 4096 < va / 4096 + k → walk pd vb m ≡ inl noent
  pub entries :
      (vb : ℕ)
      → va / 4096 ≤ vb / 4096
      → vb / 4096 < va / 4096 + k
      → (pt : ℕ) × (walk pd vb m'
          ≡ inr (pt, pa + (vb / 4096 - va / 4096) * 4096 + permissions flags))
  pub others :
      (vb : ℕ)
      → vb < 2 ^ 32
      → (vb / 4096 < va / 4096) ⊎ (va / 4096 + k ≤ vb / 4096)
      → walk pd vb m' ≡ walk pd vb m
  pub directory : (i : ℕ) → i < 1024 → Kept flags (read_entry m pd i) (read_entry m' pd i)

pub Mapped-none :
    {pd : ℕ} (va pa flags : ℕ) {m : Machine} → IsSpace pd m → Mapped pd va pa flags 0 m m
Mapped-none va pa flags v = record {
  space = v;
  fresh = λ vb lo hi. absurd (omega arith);
  entries = λ vb lo hi. absurd (omega arith);
  others = λ vb h out. refl;
  directory = λ i h. inl refl;
}

pub Mapped-suc :
    {pd va pa flags k : ℕ} {m m1 m' : Machine}
    → va + 4096 * (k + 1) ≤ 2 ^ 32
    → va % 4096 ≡ 0
    → Mapped pd va pa flags 1 m m1
    → Mapped pd (va + 4096) (pa + 4096) flags k m1 m'
    → Mapped pd va pa flags (suc k) m m'
Mapped-suc {pd} {va} {pa} {flags} {k} {m} {m1} {m'} fits aligned a b = record {
  space = b.space;
  fresh = λ vb lo hi. elim (Bool-cases (leb (vb / 4096) (va / 4096))) [
    | inl first ↦ a.fresh vb lo (ground arith)
    | inr later ↦
        sym (a.others vb (omega arith) (inr (ground arith)))
        ∙ b.fresh vb (ground arith) (omega arith)
  ];
  entries = λ vb lo hi. elim (Bool-cases (leb (vb / 4096) (va / 4096))) [
    | inl first ↦
        let (pt, here) = a.entries vb lo (ground arith) in
        (pt, b.others vb (omega arith) (inl (ground arith)) ∙ here)
    | inr later ↦
        let (pt, here) = b.entries vb (ground arith) (omega arith) in
        let place : pa + 4096 + (vb / 4096 - (va + 4096) / 4096) * 4096
            ≡ pa + (vb / 4096 - va / 4096) * 4096 =
          ground arith in
        (pt, here ∙ ap (λ x. inr (pt, x + permissions flags)) place)
  ];
  others = λ vb h out. b.others vb h (ground arith) ∙ a.others vb h (ground arith);
  directory = λ i h. Kept-trans flags (a.directory i h) (b.directory i h);
}

-- The same, where memory has changed but no translation.
pub unmapped :
    {pd va pa flags : ℕ} {m : Machine} (m' : Machine)
    → IsSpace pd m'
    → ((vb : ℕ) → vb < 2 ^ 32 → walk pd vb m' ≡ walk pd vb m)
    → ((i : ℕ) → i < 1024 → Kept flags (read_entry m pd i) (read_entry m' pd i))
    → Mapped pd va pa flags 0 m m'
unmapped m' space same directory = record {
  space = space;
  fresh = λ vb lo hi. absurd (omega arith);
  entries = λ vb lo hi. absurd (omega arith);
  others = λ vb h out. same vb h;
  directory = directory;
}
