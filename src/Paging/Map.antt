-- ===== src/Paging/Map.antt =====
-- `arch_vm_map` of kernel/arch/x86/mm.c.
use mathlib.Core.Path.{subst}
use it_works_os.Base.{
  ℕ, zero, suc, ◌+◌, ◌-◌, ◌*◌, ◌/◌, ◌%◌, ◌^◌, ◌≤◌, ◌<◌, ◌≡◌, ◌≢◌, ◌⊎◌, inl, inr, refl, ap, sym, ◌∙◌,
  arith, true, some, bit_and, bit_or, ◌==◌, Bool-cases, not, if◌then◌else◌, ◌||◌,
}
use it_works_os.Bits.Page.{bit_or_page, bit_and_page, mask_test-bit_0}
use it_works_os.Bits.Mask.{bit_and_mask}
use it_works_os.Kerror.{Kerror, ok, inval, is_err}
use it_works_os.Paging.{
  Machine, read_entry, page_mask, is_present, pde_index, pte_index, x86_vm_flags_to_pte, set_entry,
  map_page, map_range, arch_vm_map, arch_vm_translate,
}
use it_works_os.Paging.Space.{
  table_of, IsSpace, walk-unmapped, walk-mapped, same_directory, flushed-IsSpace, walk-flushed,
  written-IsSpace, written-here, written-other,
}
use it_works_os.Paging.Table.{TableOutcome, table_for_lem}
use it_works_os.Paging.Mapped.{
  permissions, permissions_lem, permissions-bits, walk-page, Kept, Stopped, Mapped, Mapped-none,
  Mapped-suc, unmapped,
}

-- One page.
abbrev pub StepOutcome : ℕ → ℕ → ℕ → ℕ → Machine → Kerror × Machine → Type 0
StepOutcome pd va pa flags m (e, m') =
    ((e ≡ ok) × Mapped pd va pa flags 1 m m') ⊎ (Stopped pd va e m' × Mapped pd va pa flags 0 m m')

Stopped-is_err : (pd va : ℕ) (m : Machine) (e : Kerror) → Stopped pd va e m → is_err e ≡ true
Stopped-is_err pd va m e (inl (h, _, _)) = rw h refl
Stopped-is_err pd va m e (inr (inl (h, _))) = rw h refl
Stopped-is_err pd va m e (inr (inr (h, _, _))) = rw h refl

map_page_lem :
    {pd : ℕ} {m : Machine} (va pa flags : ℕ)
    → IsSpace pd m
    → va < 2 ^ 32
    → va % 4096 ≡ 0
    → pa < 2 ^ 32
    → pa % 4096 ≡ 0
    → StepOutcome pd va pa flags m (map_page pd va pa flags m)
unfolding map_page set_entry
map_page_lem {pd} {m} va pa flags v word aligned pa_word pa_aligned =
    go _ (table_for_lem va flags v word)
  where
    entry : bit_or (bit_and pa page_mask) (x86_vm_flags_to_pte flags) ≡ pa + permissions flags
    entry =
        let (small, _) = permissions-bits flags in
        let whole : bit_and pa page_mask ≡ pa = omega (arith, bit_and_page pa pa_word) in
        rw (whole, permissions_lem) (bit_or_page pa (permissions flags) pa_aligned (omega arith))

    go :
        (r : Kerror × Machine)
        → TableOutcome pd va flags m r
        → StepOutcome pd va pa flags m (set_entry pd va pa flags r)
    go (e, m') (inl (e_ok, space, has, same, kept)) =
        let w = pa + permissions flags in
        let (bits, odd) = permissions-bits flags in
        let present : is_present w ≡ true = ground (arith, mask_test-bit_0 w) in
        rw (e_ok, entry)
          (elim (Bool-cases
            (is_present (read_entry m' (table_of pd m' (pde_index va)) (pte_index va)))) [
              | inl there ↦ rw there (
                  inr (
                    inr (inr (refl, _, walk-mapped pd va m' has there)),
                    unmapped m' space same kept,
                  ))
              | inr free ↦ rw free (
                  inl (
                    refl,
                    record {
                      space =
                          flushed-IsSpace va (written-IsSpace space va word has w (omega arith));
                      fresh = λ vb lo hi.
                          walk-page pd vb va m (omega arith)
                          ∙ sym (same va word)
                          ∙ walk-unmapped pd va m' has free;
                      entries = λ vb lo hi.
                          let here : vb / 4096 ≡ va / 4096 = omega arith in
                          (
                            table_of pd m' (pde_index va),
                            walk-flushed pd va vb _
                                ∙ walk-page pd vb va _ here
                                ∙ written-here space va word has w present
                                ∙ ap (λ x. inr (table_of pd m' (pde_index va), x)) (omega arith),
                          );
                      others = λ vb h out.
                          walk-flushed pd va vb _
                          ∙ written-other space va word has w vb h (omega arith)
                          ∙ same vb h;
                      directory = λ i hi.
                          subst (Kept flags (read_entry m pd i))
                            (sym (same_directory space va word has w i hi)) (kept i hi);
                    },
                  ))
            ])
    go (e, m') (inr (why, same)) =
        rw (Stopped-is_err pd va m e why, same) (inr (why, Mapped-none va pa flags v))

-- Pages are mapped up to the first that fails.
abbrev pub RangeOutcome : ℕ → ℕ → ℕ → ℕ → ℕ → Machine → Kerror × Machine → Type 0
RangeOutcome pd va pa flags n m (e, m') =
    ((e ≡ ok) × Mapped pd va pa flags n m m')
    ⊎ ((k : ℕ) × (k < n) × Stopped pd (va + 4096 * k) e m' × Mapped pd va pa flags k m m')

-- A first page and those after it.
module _ {pd flags n : ℕ} {m : Machine} (virt phys off : ℕ)
    (fits : virt + off + 4096 * suc n ≤ 2 ^ 32) (aligned : (virt + off) % 4096 ≡ 0) where
  later :
      (m1 : Machine)
      → Mapped pd (virt + off) (phys + off) flags 1 m m1
      → (r : Kerror × Machine)
      → RangeOutcome pd (virt + (off + 4096)) (phys + (off + 4096)) flags n m1 r
      → RangeOutcome pd (virt + off) (phys + off) flags (suc n) m r
  later m1 first (e, m') outcome =
      let va : virt + (off + 4096) ≡ virt + off + 4096 = omega arith in
      let pa : phys + (off + 4096) ≡ phys + off + 4096 = omega arith in
      elim (rw (va, pa) at outcome) [
        | inl (e_ok, rest) ↦ inl (e_ok, Mapped-suc (omega arith) aligned first rest)
        | inr (k, less, why, rest) ↦ inr (
          suc k,
          omega arith,
          subst (λ x. Stopped pd x e m') (omega arith) why,
          Mapped-suc (omega arith) aligned first rest,
        )
      ]

  range_step :
      (r : Kerror × Machine)
      → StepOutcome pd (virt + off) (phys + off) flags m r
      → ((m1 : Machine)
          → IsSpace pd m1
          → RangeOutcome pd
              (virt + (off + 4096))
              (phys + (off + 4096))
              flags
              n
              m1
              (map_range pd virt phys flags n (off + 4096) m1))
      → RangeOutcome pd
          (virt + off)
          (phys + off)
          flags
          (suc n)
          m
          (if is_err r.0 then r else map_range pd virt phys flags n (off + 4096) r.1)
  range_step (e, m1) (inl (e_ok, first)) rest = rw e_ok (later m1 first _ (rest m1 first.space))
  range_step (e, m1) (inr (why, none_mapped)) rest =
      rw (Stopped-is_err pd (virt + off) m1 e why)
        (inr (0, omega arith, subst (λ x. Stopped pd x e m1) (omega arith) why, none_mapped))

map_range_lem :
    {pd : ℕ} {m : Machine} (virt phys flags n off : ℕ)
    → IsSpace pd m
    → virt + off + 4096 * n ≤ 2 ^ 32
    → phys + off + 4096 * n ≤ 2 ^ 32
    → (virt + off) % 4096 ≡ 0
    → (phys + off) % 4096 ≡ 0
    → RangeOutcome pd (virt + off) (phys + off) flags n m (map_range pd virt phys flags n off m)
unfolding map_range
map_range_lem virt phys flags zero off v fits_v fits_p av ap' =
    inl (refl, Mapped-none (virt + off) (phys + off) flags v)
map_range_lem {pd} {m} virt phys flags (suc n) off v fits_v fits_p av ap' =
    let va : (virt + off) % 2 ^ 32 ≡ virt + off = omega arith in
    let pa : (phys + off) % 2 ^ 64 ≡ phys + off = omega arith in
    rw (va, pa)
      (range_step virt phys off fits_v av _
        (map_page_lem (virt + off) (phys + off) flags v (omega arith) av (omega arith) ap')
        (λ m1 v1.
          map_range_lem virt phys flags n (off + 4096) v1 (omega arith) (omega arith) (omega arith)
            (omega arith)))

abbrev pub MapOutcome : ℕ → ℕ → ℕ → ℕ → ℕ → Machine → Kerror × Machine → Type 0
MapOutcome pd virt phys size flags m (e, m') =
    (((size ≡ 0) ⊎ (virt % 4096 ≢ 0) ⊎ (phys % 4096 ≢ 0) ⊎ (size % 4096 ≢ 0))
      × (e ≡ inval)
      × (m' ≡ m))
    ⊎ ((size ≢ 0)
        × (virt % 4096 ≡ 0)
        × (phys % 4096 ≡ 0)
        × (size % 4096 ≡ 0)
        × RangeOutcome pd virt phys flags (size / 4096) m (e, m'))

-- `arch_vm_map` over addresses below 2^32 is INVAL without a change if the size is 0 or an argument is
-- not a multiple of the page size. Otherwise it maps the pages in order, each with its permissions, to
-- the frames from `phys` on: all of them if it returns OK, else those before the first that is mapped
-- already (EXISTS), lies in a large page (NOSUP) or needs a table when no page of low memory is free
-- (NOMEM). The pages that it maps had no entry, no other page is changed, and the invariant is kept. An
-- entry of the directory is as before, or it is that of a new table, which can be written and, if VM_USER
-- is given, used by user code.
pub arch_vm_map_lem :
    {pd : ℕ} {m : Machine} (virt phys size flags : ℕ)
    → IsSpace pd m
    → virt + size ≤ 2 ^ 32
    → phys + size ≤ 2 ^ 32
    → MapOutcome pd virt phys size flags m (arch_vm_map pd virt phys size flags m)
unfolding arch_vm_map
arch_vm_map_lem {pd} {m} virt phys size flags v fits_v fits_p = elim (Bool-cases (size == 0)) [
  | inl e ↦ rw e (inl (inl (ground arith), refl, refl))
  | inr e ↦
      elim (Bool-cases
        (not (virt % 4096 == 0) || not (phys % 4096 == 0) || not (size % 4096 == 0))) [
          | inl bad ↦ rw (e, bad) (inl (inr (ground arith), refl, refl))
          | inr good ↦
              let start_v : virt + 0 ≡ virt = omega arith in
              let start_p : phys + 0 ≡ phys = omega arith in
              let av : virt % 4096 ≡ 0 = ground arith in
              let ap' : phys % 4096 ≡ 0 = ground arith in
              let size_aligned : size % 4096 ≡ 0 = ground arith in
              rw (e, good)
                (inr (
                  ground arith,
                  av,
                  ap',
                  size_aligned,
                  (rw (start_v, start_p) at
                      (map_range_lem virt phys flags (size / 4096) 0 v (omega arith) (omega arith)
                        (omega arith) (omega arith))),
                ))
        ]
]

-- A mapped address is translated to the one at the same distance from the start of the range.
pub translate-Mapped :
    {pd va pa flags k : ℕ} {m m' : Machine} (vb : ℕ)
    → Mapped pd va pa flags k m m'
    → va % 4096 ≡ 0
    → pa % 4096 ≡ 0
    → pa + 4096 * k ≤ 2 ^ 32
    → va ≤ vb
    → vb < va + 4096 * k
    → arch_vm_translate pd vb m' ≡ (ok, some (pa + (vb - va)))
unfolding arch_vm_translate
translate-Mapped {pd} {va} {pa} {flags} {k} {m} {m'} vb mapped av ap' fits lo hi =
    let (pt, here) = mapped.entries vb (omega arith) (omega arith) in
    let frame = pa + (vb / 4096 - va / 4096) * 4096 in
    let (bits, odd) = permissions-bits flags in
    let high : bit_and (frame + permissions flags) page_mask ≡ frame =
      omega (arith, bit_and_page (frame + permissions flags) (omega arith)) in
    let low : bit_and vb 4095 ≡ vb % 4096 = bit_and_mask 12 vb in
    let sum : bit_or frame (vb % 4096) ≡ pa + (vb - va) =
      omega (arith, bit_or_page frame (vb % 4096) (omega arith) (omega arith)) in
    rw (here, high, low, sum) refl
