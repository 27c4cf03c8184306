-- ===== src/Paging/Table.antt =====
-- A new, empty table in the directory of an address space, kernel/arch/x86/mm.c.
use mathlib.Core.Path.{subst}
use it_works_os.Base.{
  ℕ, ◌+◌, ◌/◌, ◌%◌, ◌^◌, ◌<◌, ◌≡◌, ◌≢◌, ◌⊎◌, inl, inr, refl, ap, sym, ◌∙◌, arith, true, false,
  Option, if◌then◌else◌, bit_and, bit_or, ◌==◌, Bool-cases,
}
use it_works_os.Bits.{mask_test}
use it_works_os.Bits.Page.{bit_or_page, bit_and_page, mask_test-bit_0, mask_test-bit_7}
use it_works_os.Kerror.{Kerror, ok, nosup}
use it_works_os.Pmm.{Pmm}
use it_works_os.Paging.{
  alloc_page, Machine, read_entry, write_entry, clear_page, page_mask, is_present, is_large,
  pde_index, pte_index, walk, table_at, new_table, table_for, x86_vm_flags_to_pde, vm_user,
}
use it_works_os.Paging.Pages.{
  IsPage, NewPage, PageOutcome, alloc_page_lem, read-write_other, read-write_same, read-clear_other,
  read-clear_same, write_word-lt, clear_words-lt,
}
use it_works_os.Paging.Mapped.{Kept, Stopped}
use it_works_os.Paging.Space.{
  HasTable, table_of, IsSpace, walk-agree, walk-absent, walk-unmapped, pde_index-lt, pte_index-lt,
}

module _ {pd : ℕ} {m : Machine} (v : IsSpace pd m) (i flags : ℕ) (hi : i < 1024)
    (odd : flags % 2 ≡ 1) (small : flags < 128) (absent : is_present (read_entry m pd i) ≡ false)
    {p : ℕ} {pmm : Pmm} (new : NewPage m.pmm pmm p) where
  abbrev cleared : Machine
  cleared = clear_page p (record m { pmm = pmm })

  abbrev pub with_table : Machine
  with_table = write_entry cleared pd i (bit_or p flags % 2 ^ 32)

  kept_page : {t : ℕ} → IsPage m.pmm t → IsPage pmm t
  kept_page {t} h = record { aligned = h.aligned; low = h.low; taken = new.kept (t / 4096) h.taken }

  -- The page was not in use.
  other_page : {t : ℕ} → IsPage m.pmm t → p ≢ t
  other_page {t} h e = let b = new.was_free in let c = h.taken in cc

  entry : bit_or p flags % 2 ^ 32 ≡ p + flags
  entry = omega (arith, bit_or_page p flags new.page.aligned (omega arith), new.page.low)

  read_new : read_entry with_table pd i ≡ p + flags
  read_new = read-write_same cleared pd i _ ∙ entry

  read_old : (j : ℕ) → j < 1024 → j ≢ i → read_entry with_table pd j ≡ read_entry m pd j
  read_old j hj ne =
      read-write_other v.directory v.directory cleared _ hi hj (inr (λ e. ne (sym e)))
      ∙ read-clear_other new.page v.directory (record m { pmm = pmm }) hj (other_page v.directory)

  read_elsewhere :
      (t k : ℕ) → IsPage m.pmm t → t ≢ pd → k < 1024 → read_entry with_table t k ≡ read_entry m t k
  read_elsewhere t k h ne hk =
      read-write_other v.directory h cleared _ hi hk (inl (λ e. ne (sym e)))
      ∙ read-clear_other new.page h (record m { pmm = pmm }) hk (other_page h)

  pub with_table-HasTable : HasTable pd with_table i
  with_table-HasTable = (
    rw read_new (ground (arith, mask_test-bit_0 (p + flags), new.page.aligned)),
    rw read_new (ground (arith, mask_test-bit_7 (p + flags), new.page.aligned)),
  )

  pub with_table-table_of : table_of pd with_table i ≡ p
  with_table-table_of =
      rw read_new
        (omega (arith, bit_and_page (p + flags) (omega (arith, new.page.low)), new.page.aligned))

  pub with_table-empty : (k : ℕ) → k < 1024 → read_entry with_table p k ≡ 0
  with_table-empty k hk =
      read-write_other v.directory new.page cleared _ hi hk
        (inl (λ e. other_page v.directory (sym e)))
      ∙ read-clear_same (record m { pmm = pmm }) p k hk

  pub with_table-walk : (va : ℕ) → va < 2 ^ 32 → walk pd va with_table ≡ walk pd va m
  with_table-walk va h = elim (Bool-cases (pde_index va == i)) [
    | inl e ↦
        let here : pde_index va ≡ i = ground arith in
        let hk = pte_index-lt va in
        walk-unmapped pd va with_table (rw here with_table-HasTable) (
          rw (here, with_table-table_of, with_table-empty (pte_index va) hk)
            (ground (arith, mask_test-bit_0 0)))
        ∙ sym (walk-absent pd va m (rw here absent))
    | inr e ↦
        let hj = pde_index-lt va h in
        walk-agree pd pd va m with_table (read_old (pde_index va) hj (ground arith)) (λ has.
          read_elsewhere _ (pte_index va) (v.table (pde_index va) hj has)
            (v.not_directory (pde_index va) hj has) (pte_index-lt va))
  ]

  with_table-Kept :
      (flags' : ℕ)
      → flags ≡ 3 + (if mask_test flags' vm_user then 4 else 0)
      → (j : ℕ) → j < 1024
      → Kept flags' (read_entry m pd j) (read_entry with_table pd j)
  with_table-Kept flags' same j hj = elim (Bool-cases (j == i)) [
    | inl e ↦
        let here : j ≡ i = ground arith in
        rw here
          (inr (absent, with_table-HasTable.0, rw read_new (omega (arith, new.page.aligned, same))))
    | inr e ↦ inl (read_old j hj (ground arith))
  ]

  old-HasTable : (j : ℕ) → j < 1024 → j ≢ i → HasTable pd with_table j → HasTable pd m j
  old-HasTable j hj ne h = rw (read_old j hj ne) at h

  -- The tables are the new one and the old ones.
  Placed : ℕ → Type 0
  Placed j =
      ((j ≡ i) × (table_of pd with_table j ≡ p))
      ⊎ ((table_of pd with_table j ≡ table_of pd m j)
          × IsPage m.pmm (table_of pd m j)
          × HasTable pd m j)

  placed : (j : ℕ) → j < 1024 → HasTable pd with_table j → (j ≡ i) ⊎ (j ≢ i) → Placed j
  unfolding Placed
  placed j hj h (inl e) = inl (e, ap (λ k. table_of pd with_table k) e ∙ with_table-table_of)
  placed j hj h (inr ne) =
      let old = old-HasTable j hj ne h in
      inr (ap (λ w. bit_and w page_mask) (read_old j hj ne), v.table j hj old, old)

  decide : (j : ℕ) → (j ≡ i) ⊎ (j ≢ i)
  decide j = elim (Bool-cases (j == i)) [ inl e ↦ inl (ground arith) | inr e ↦ inr (ground arith) ]

  table_page : (j : ℕ) → Placed j → IsPage pmm (table_of pd with_table j)
  unfolding Placed
  table_page j (inl (_, e)) = rw e new.page
  table_page j (inr (e, page, _)) = rw e (kept_page page)

  table_not_directory : (j : ℕ) → j < 1024 → Placed j → table_of pd with_table j ≢ pd
  unfolding Placed
  table_not_directory j hj (inl (_, e)) same = other_page v.directory (sym e ∙ same)
  table_not_directory j hj (inr (e, _, has)) same = v.not_directory j hj has (sym e ∙ same)

  tables_apart :
      (j k : ℕ)
      → j < 1024
      → k < 1024
      → j ≢ k
      → Placed j
      → Placed k
      → table_of pd with_table j ≢ table_of pd with_table k
  unfolding Placed
  tables_apart j k hj hk ne (inl (here, _)) (inl (here', _)) same = ne (here ∙ sym here')
  tables_apart j k hj hk ne (inl (_, e)) (inr (e', page, _)) same =
      other_page page (sym e ∙ same ∙ e')
  tables_apart j k hj hk ne (inr (e, page, _)) (inl (_, e')) same =
      other_page page (sym e' ∙ sym same ∙ e)
  tables_apart j k hj hk ne (inr (e, _, has)) (inr (e', _, has')) same =
      v.apart j k hj hk ne has has' (sym e ∙ same ∙ e')

  pub with_table-IsSpace : IsSpace pd with_table
  with_table-IsSpace = record {
    frames = new.valid;
    words = write_word-lt _ _ _ (omega arith) (clear_words-lt m.memory _ v.words);
    directory = kept_page v.directory;
    table = λ j hj h. table_page j (placed j hj h (decide j));
    not_directory = λ j hj h. table_not_directory j hj (placed j hj h (decide j));
    apart = λ j k hj hk ne h h'.
        tables_apart j k hj hk ne (placed j hj h (decide j)) (placed k hk h' (decide k));
  }

-- A table for a page: the one that there is, or a new one if the directory has none.
abbrev pub TableOutcome : ℕ → ℕ → ℕ → Machine → Kerror × Machine → Type 0
TableOutcome pd va flags m (e, m') =
    ((e ≡ ok)
      × IsSpace pd m'
      × HasTable pd m' (pde_index va)
      × ((vb : ℕ) → vb < 2 ^ 32 → walk pd vb m' ≡ walk pd vb m)
      × ((i : ℕ) → i < 1024 → Kept flags (read_entry m pd i) (read_entry m' pd i)))
    ⊎ (Stopped pd va e m × (m' ≡ m))

pde_flags :
    (flags : ℕ)
    → (x86_vm_flags_to_pde flags % 2 ≡ 1)
      × (x86_vm_flags_to_pde flags < 128)
      × (x86_vm_flags_to_pde flags ≡ 3 + (if mask_test flags vm_user then 4 else 0))
unfolding x86_vm_flags_to_pde
pde_flags flags = elim (Bool-cases (mask_test flags vm_user)) [
  | inl e ↦ rw e (refl, omega arith, refl)
  | inr e ↦ rw e (refl, omega arith, refl)
]

walk-large :
    (pd va : ℕ) (m : Machine)
    → is_present (read_entry m pd (pde_index va)) ≡ true
    → is_large (read_entry m pd (pde_index va)) ≡ true
    → walk pd va m ≡ inl nosup
unfolding walk
walk-large pd va m e large = rw (e, large) refl

pub table_for_lem :
    {pd : ℕ} {m : Machine} (va flags : ℕ)
    → IsSpace pd m
    → va < 2 ^ 32
    → TableOutcome pd va flags m (table_for pd va flags m)
unfolding table_for new_table
table_for_lem {pd} {m} va flags v word =
    elim (Bool-cases (is_present (read_entry m pd (pde_index va)))) [
      | inl e ↦ elim (Bool-cases (is_large (read_entry m pd (pde_index va)))) [
        | inl large ↦
            let is_nosup : table_for pd va flags m ≡ (nosup, m) = rw (e, large) refl in
            subst (TableOutcome pd va flags m) (sym is_nosup)
              (inr (inr (inl (refl, walk-large pd va m e large)), refl))
        | inr small ↦
            let is_ok : table_for pd va flags m ≡ (ok, m) = rw (e, small) refl in
            subst (TableOutcome pd va flags m) (sym is_ok)
              (inl (refl, v, (e, small), λ vb h. refl, λ j h. inl refl))
      ]
      | inr e ↦
          let is_new : table_for pd va flags m
              ≡ table_at pd (pde_index va) (x86_vm_flags_to_pde flags) m (alloc_page m.pmm) =
            rw e refl in
          subst (TableOutcome pd va flags m) (sym is_new) (made e _ (alloc_page_lem m.pmm v.frames))
    ]
  where
    made :
        is_present (read_entry m pd (pde_index va)) ≡ false
        → (r : Kerror × Option ℕ × Pmm) → PageOutcome m.pmm r
        → TableOutcome pd va flags m (table_at pd (pde_index va) (x86_vm_flags_to_pde flags) m r)
    made absent r (inl (p, pmm, e, new)) =
        let (odd, small, bits) = pde_flags flags in
        let hi = pde_index-lt va word in
        let i = pde_index va in
        let f = x86_vm_flags_to_pde flags in
        rw e (
          inl (
            refl,
            with_table-IsSpace v i f hi odd small absent new,
            with_table-HasTable v i f hi odd small absent new,
            λ vb h. with_table-walk v i f hi odd small absent new vb h,
            λ j hj. with_table-Kept v i f hi odd small absent new flags bits j hj,
          ))
    made absent r (inr (e, full)) = rw e (inr (inl (refl, absent, full), refl))
