-- ===== src/Paging/Change.antt =====
-- `arch_vm_unmap` and `arch_vm_protect` of kernel/arch/x86/mm.c, which change the entries of a range.
use it_works_os.Base.{
  ℕ, zero, suc, ◌+◌, ◌*◌, ◌/◌, ◌%◌, ◌^◌, ◌≤◌, ◌<◌, ◌≡◌, ◌≢◌, ◌⊎◌, inl, inr, refl, ap, sym, ◌∙◌,
  arith, bit_and, bit_or, ◌==◌, Bool-cases, not, if◌then◌else◌, ◌||◌,
}
use it_works_os.Bits.Page.{bit_or_page, bit_and_page, mask_test-bit_0}
use it_works_os.Kerror.{Kerror, inval, noent}
use it_works_os.Paging.{
  Machine, x86_invlpg, write_entry, page_mask, pde_index, pte_index, walk, x86_vm_flags_to_pte,
  unmap_page, unmap_range, arch_vm_unmap, protect_page, protect_range, arch_vm_protect,
}
use it_works_os.Paging.Space.{
  table_of, IsSpace, flushed-IsSpace, walk-flushed, written-IsSpace, written-here, written-gone,
  written-other,
}
use it_works_os.Paging.Mapped.{permissions, permissions_lem, permissions-bits, walk-page}
use it_works_os.Paging.Changed.{
  Found, WalkOutcome, walk_lem, Changed, Changed-none, ChangeOutcome, StepOutcome, range_step,
}

-- An entry that is found is overwritten.
module _ {pd va : ℕ} {m : Machine} {pt pte : ℕ} (v : IsSpace pd m) (word : va < 2 ^ 32)
    (here : walk pd va m ≡ inr (pt, pte)) (f : Found pd va m pt pte) where
  overwritten :
      (after : ℕ × ℕ → Kerror ⊎ (ℕ × ℕ)) (w : ℕ)
      → w < 2 ^ 32
      → walk pd va (write_entry m (table_of pd m (pde_index va)) (pte_index va) w) ≡ after (pt, pte)
      → Changed after pd va 1 m (x86_invlpg va (write_entry m pt (pte_index va) w))
  overwritten after w small there = rw f.table_is (record {
    space = flushed-IsSpace va (written-IsSpace v va word f.has w small);
    entries = λ vb lo hi.
        let page : vb / 4096 ≡ va / 4096 = omega arith in
        (
          (pt, pte),
          walk-page pd vb va m page ∙ here,
          walk-flushed pd va vb _ ∙ walk-page pd vb va _ page ∙ there,
        );
    others =
        λ vb h out. walk-flushed pd va vb _ ∙ written-other v va word f.has w vb h (omega arith);
  })

abbrev pub unmapped : ℕ × ℕ → Kerror ⊎ (ℕ × ℕ)
unmapped found = inl noent

-- The frame of an entry with new permissions.
abbrev pub protected : ℕ → ℕ × ℕ → Kerror ⊎ (ℕ × ℕ)
protected flags (pt, pte) = inr (pt, pte / 4096 * 4096 + permissions flags)

unmap_step :
    {pd : ℕ} {m : Machine} (va : ℕ)
    → IsSpace pd m
    → va < 2 ^ 32
    → StepOutcome unmapped pd va m (unmap_page va m (walk pd va m))
unmap_step {pd} {m} va v word = go _ (walk_lem pd va m) refl
  where
    go :
        (r : Kerror ⊎ (ℕ × ℕ))
        → WalkOutcome pd va m r
        → walk pd va m ≡ r
        → StepOutcome unmapped pd va m (unmap_page va m r)
    go (inl e) why stop = inr (why, stop, refl)
    go (inr (pt, pte)) f here = inl (
      refl,
      overwritten v word here f unmapped 0 (omega arith)
          (written-gone v va word f.has 0 (ground (arith, mask_test-bit_0 0))),
    )

protect_step :
    {pd : ℕ} {m : Machine} (va flags : ℕ)
    → IsSpace pd m
    → va < 2 ^ 32
    → StepOutcome (protected flags) pd va m (protect_page va flags m (walk pd va m))
protect_step {pd} {m} va flags v word = go _ (walk_lem pd va m) refl
  where
    go :
        (r : Kerror ⊎ (ℕ × ℕ))
        → WalkOutcome pd va m r
        → walk pd va m ≡ r
        → StepOutcome (protected flags) pd va m (protect_page va flags m r)
    go (inl e) why stop = inr (why, stop, refl)
    go (inr (pt, pte)) f here =
        let small : pte < 2 ^ 32 = rw f.entry_is (v.words _) in
        let (bits, odd) = permissions-bits flags in
        let w = pte / 4096 * 4096 + permissions flags in
        let entry : bit_or (bit_and pte page_mask) (x86_vm_flags_to_pte flags) ≡ w =
          rw (bit_and_page pte small, permissions_lem)
            (bit_or_page (pte / 4096 * 4096) (permissions flags) (omega arith) (omega arith)) in
        rw entry (
          inl (
            refl,
            overwritten v word here f (protected flags) w (omega arith) (
                written-here v va word f.has w (ground (arith, mask_test-bit_0 w))
                ∙ ap (λ t. inr (t, w)) (sym f.table_is)),
          ))

unmap_range_lem :
    {pd : ℕ} {m : Machine} (virt n off : ℕ)
    → IsSpace pd m
    → virt + off + 4096 * n ≤ 2 ^ 32
    → (virt + off) % 4096 ≡ 0
    → ChangeOutcome unmapped pd (virt + off) n m (unmap_range pd virt n off m)
unfolding unmap_range
unmap_range_lem virt zero off v fits aligned = inl (refl, Changed-none unmapped (virt + off) v)
unmap_range_lem {pd} {m} virt (suc n) off v fits aligned =
    let va : (virt + off) % 2 ^ 32 ≡ virt + off = omega arith in
    rw va (
      range_step unmapped virt off v fits aligned _ (unmap_range pd virt n (off + 4096))
        (unmap_step (virt + off) v (omega arith))
        (λ m1 v1. unmap_range_lem virt n (off + 4096) v1 (omega arith) (omega arith)))

protect_range_lem :
    {pd : ℕ} {m : Machine} (virt flags n off : ℕ)
    → IsSpace pd m
    → virt + off + 4096 * n ≤ 2 ^ 32
    → (virt + off) % 4096 ≡ 0
    → ChangeOutcome (protected flags) pd (virt + off) n m (protect_range pd virt flags n off m)
unfolding protect_range
protect_range_lem virt flags zero off v fits aligned =
    inl (refl, Changed-none (protected flags) (virt + off) v)
protect_range_lem {pd} {m} virt flags (suc n) off v fits aligned =
    let va : (virt + off) % 2 ^ 32 ≡ virt + off = omega arith in
    rw va (
      range_step (protected flags) virt off v fits aligned _
        (protect_range pd virt flags n (off + 4096))
        (protect_step (virt + off) flags v (omega arith))
        (λ m1 v1. protect_range_lem virt flags n (off + 4096) v1 (omega arith) (omega arith)))

-- All of a call on a range.
abbrev pub CallOutcome :
    (ℕ × ℕ → Kerror ⊎ (ℕ × ℕ)) → ℕ → ℕ → ℕ → Machine → Kerror × Machine → Type 0
CallOutcome after pd virt size m (e, m') =
    (((size ≡ 0) ⊎ (virt % 4096 ≢ 0) ⊎ (size % 4096 ≢ 0)) × (e ≡ inval) × (m' ≡ m))
    ⊎ ((size ≢ 0)
        × (virt % 4096 ≡ 0)
        × (size % 4096 ≡ 0)
        × ChangeOutcome after pd virt (size / 4096) m (e, m'))

module _ {pd : ℕ} {m : Machine} (virt size : ℕ) (v : IsSpace pd m)
    (fits : virt + size ≤ 2 ^ 32) where
  call :
      (after : ℕ × ℕ → Kerror ⊎ (ℕ × ℕ)) (r : Kerror × Machine)
      → (virt % 4096 ≡ 0 → ChangeOutcome after pd (virt + 0) (size / 4096) m r)
      → CallOutcome after pd virt size m (
          if size == 0
          then (inval, m)
          else if not (virt % 4096 == 0) || not (size % 4096 == 0)
          then (inval, m)
          else r)
  call after r range = elim (Bool-cases (size == 0)) [
    | inl e ↦ rw e (inl (inl (ground arith), refl, refl))
    | inr e ↦ elim (Bool-cases (not (virt % 4096 == 0) || not (size % 4096 == 0))) [
      | inl bad ↦ rw (e, bad) (inl (inr (ground arith), refl, refl))
      | inr good ↦
          let start : virt + 0 ≡ virt = omega arith in
          let aligned : virt % 4096 ≡ 0 = ground arith in
          let size_aligned : size % 4096 ≡ 0 = ground arith in
          rw (e, good) (inr (ground arith, aligned, size_aligned, (rw start at (range aligned))))
    ]
  ]

  -- `arch_vm_unmap` below 2^32 is INVAL without a change if the size is 0 or an argument is not a multiple
  -- of the page size. Otherwise it clears the entries of the pages in order, up to the first that has
  -- none (NOENT) or lies in a large page (NOSUP); no other page is changed and the invariant is kept.
  pub arch_vm_unmap_lem : CallOutcome unmapped pd virt size m (arch_vm_unmap pd virt size m)
  unfolding arch_vm_unmap
  arch_vm_unmap_lem =
      call unmapped _
        (λ aligned. unmap_range_lem virt (size / 4096) 0 v (omega arith) (omega arith))

  -- `arch_vm_protect` in the same way keeps the frames of the pages and changes their permissions.
  pub arch_vm_protect_lem :
      (flags : ℕ)
      → CallOutcome (protected flags) pd virt size m (arch_vm_protect pd virt size flags m)
  unfolding arch_vm_protect
  arch_vm_protect_lem flags =
      call (protected flags) _
        (λ aligned. protect_range_lem virt flags (size / 4096) 0 v (omega arith) (omega arith))
