-- ===== src/Paging/Cycle.antt =====
-- `arch_vm_map`, `arch_vm_translate` and `arch_vm_unmap` of kernel/arch/x86/mm.c together, and
-- `arch_vm_space_init` and `arch_vm_space_attach_kernel`.
use it_works_os.Base.{
  ℕ, ◌+◌, ◌-◌, ◌*◌, ◌/◌, ◌%◌, ◌^◌, ◌≤◌, ◌<◌, ◌≡◌, ◌≢◌, ◌⊎◌, inl, inr, refl, ap, sym, ◌∙◌, arith,
  false, Option, none, some, leb, ltb, ◌&&◌, Bool-cases,
}
use it_works_os.Bits.Page.{mask_test-bit_0}
use it_works_os.Kerror.{Kerror, ok, nomem, noent}
use it_works_os.Pmm.{Pmm}
use it_works_os.Pmm.Frames.{IsValid}
use it_works_os.Paging.{
  Machine, read_entry, clear_page, pde_index, walk, is_present, space_at, arch_vm_space_init,
  arch_vm_map, arch_vm_unmap, arch_vm_translate,
}
use it_works_os.Paging.Pages.{PageOutcome, alloc_page_lem, read-clear_same, clear_words-lt}
use it_works_os.Paging.Space.{IsSpace, walk-absent, pde_index-lt}
use it_works_os.Paging.Mapped.{Mapped}
use it_works_os.Paging.Map.{MapOutcome, arch_vm_map_lem, translate-Mapped}
use it_works_os.Paging.Changed.{Changed}
use it_works_os.Paging.Change.{CallOutcome, unmapped, arch_vm_unmap_lem}

module _ {pd : ℕ} {m m' : Machine} (virt phys size flags : ℕ) (v : IsSpace pd m)
    (fits_v : virt + size ≤ 2 ^ 32) (fits_p : phys + size ≤ 2 ^ 32)
    (call : arch_vm_map pd virt phys size flags m ≡ (ok, m')) where
  record Success : Type 0 where
    virt_aligned : virt % 4096 ≡ 0
    phys_aligned : phys % 4096 ≡ 0
    size_aligned : size % 4096 ≡ 0
    some_bytes : size ≢ 0
    mapped : Mapped pd virt phys flags (size / 4096) m m'

  success : Success
  success = go _ _ (rw call at (arch_vm_map_lem virt phys size flags v fits_v fits_p)) refl refl
    where
      go :
          (e : Kerror) (m1 : Machine)
          → MapOutcome pd virt phys size flags m (e, m1)
          → e ≡ ok
          → m1 ≡ m'
          → Success
      go e m1 (inl (_, bad, _)) e_ok same = cc
      go e m1 (inr (not_empty, av, ap', size_aligned, inl (_, mapped))) e_ok same = record {
        virt_aligned = av;
        phys_aligned = ap';
        size_aligned = size_aligned;
        some_bytes = not_empty;
        mapped = rw same at mapped;
      }
      go e m1 (inr (_, _, _, _, inr (_, _, inl (bad, _, _), _))) e_ok same = cc
      go e m1 (inr (_, _, _, _, inr (_, _, inr (inl (bad, _)), _))) e_ok same = cc
      go e m1 (inr (_, _, _, _, inr (_, _, inr (inr (bad, _, _)), _))) e_ok same = cc

  -- After a successful `arch_vm_map` over addresses below 2^32, `arch_vm_translate` of each address of
  -- the range is OK and gives the address as far from `phys` as it is from `virt`.
  pub translate-map :
      (vb : ℕ)
      → virt ≤ vb
      → vb < virt + size
      → arch_vm_translate pd vb m' ≡ (ok, some (phys + (vb - virt)))
  translate-map vb lo hi =
      let s = success in
      translate-Mapped vb s.mapped s.virt_aligned s.phys_aligned (omega (arith, s.size_aligned)) lo
        (omega (arith, s.size_aligned))

  -- `arch_vm_unmap` of what `arch_vm_map` has mapped is OK, and every address is then found as before.
  pub unmap-map :
      (m'' : Machine) × (arch_vm_unmap pd virt size m' ≡ (ok, m''))
      × IsSpace pd m''
      × ((vb : ℕ) → vb < 2 ^ 32 → walk pd vb m'' ≡ walk pd vb m)
  unmap-map = go _ _ (arch_vm_unmap_lem virt size success.mapped.space fits_v) refl
    where
      Result : Type 0
      Result =
          (m'' : Machine) × (arch_vm_unmap pd virt size m' ≡ (ok, m''))
          × IsSpace pd m''
          × ((vb : ℕ) → vb < 2 ^ 32 → walk pd vb m'' ≡ walk pd vb m)

      restored :
          (m'' : Machine)
          → Changed unmapped pd virt (size / 4096) m' m''
          → (vb : ℕ) → vb < 2 ^ 32
          → walk pd vb m'' ≡ walk pd vb m
      restored m'' c vb h =
          let s = success in
          elim (Bool-cases
            (leb (virt / 4096) (vb / 4096) && ltb (vb / 4096) (virt / 4096 + size / 4096))) [
              | inl inside ↦
                  let (found, _, gone) = c.entries vb (ground arith) (ground arith) in
                  gone ∙ sym (s.mapped.fresh vb (ground arith) (ground arith))
              | inr outside ↦ c.others vb h (ground arith) ∙ s.mapped.others vb h (ground arith)
            ]

      go :
          (e : Kerror) (m'' : Machine)
          → CallOutcome unmapped pd virt size m' (e, m'')
          → arch_vm_unmap pd virt size m' ≡ (e, m'')
          → Result
      go e m'' (inl (bad, _, _)) eq =
          let s = success in absurd (ground (arith, s.some_bytes, s.virt_aligned, s.size_aligned))
      go e m'' (inr (_, _, _, inl (e_ok, c))) eq =
          (m'', eq ∙ ap (λ x. (x, m'')) e_ok, c.space, restored m'' c)
      go e m'' (inr (_, _, _, inr (_, k, less, stop, _))) eq =
          let s = success in
          let (pt, here) = s.mapped.entries (virt + 4096 * k) (omega arith) (omega arith) in cc

-- `arch_vm_space_init` gives a space that satisfies the invariant and has no page, or is NOMEM without a
-- change.
pub arch_vm_space_init_lem :
    (m : Machine)
    → IsValid m.pmm
    → ((a : ℕ) → m.memory a < 2 ^ 32)
    → ((pd : ℕ) × (m' : Machine) × (arch_vm_space_init m ≡ (ok, some pd, m'))
        × IsSpace pd m'
        × ((vb : ℕ) → vb < 2 ^ 32 → walk pd vb m' ≡ inl noent))
      ⊎ (arch_vm_space_init m ≡ (nomem, none, m))
unfolding arch_vm_space_init
arch_vm_space_init_lem m v words = go _ (alloc_page_lem m.pmm v)
  where
    absent :
        (pd : ℕ) (pmm : Pmm) (i : ℕ)
        → i < 1024
        → is_present (read_entry (clear_page pd (record m { pmm = pmm })) pd i) ≡ false
    absent pd pmm i hi =
        rw (read-clear_same (record m { pmm = pmm }) pd i hi) (ground (arith, mask_test-bit_0 0))

    go :
        (r : Kerror × Option ℕ × Pmm)
        → PageOutcome m.pmm r
        → ((pd : ℕ) × (m' : Machine) × (space_at m r ≡ (ok, some pd, m'))
            × IsSpace pd m'
            × ((vb : ℕ) → vb < 2 ^ 32 → walk pd vb m' ≡ inl noent))
          ⊎ (space_at m r ≡ (nomem, none, m))
    go r (inl (pd, pmm, e, new)) = inl (
      pd,
      clear_page pd (record m { pmm = pmm }),
      rw e refl,
      record {
        frames = new.valid;
        words = clear_words-lt m.memory _ words;
        directory = new.page;
        table = λ i hi (here, _). absurd (let gone = absent pd pmm i hi in cc);
        not_directory = λ i hi (here, _). absurd (let gone = absent pd pmm i hi in cc);
        apart = λ i j hi hj ne (here, _) h'. absurd (let gone = absent pd pmm i hi in cc);
      },
      λ vb h. walk-absent pd vb _ (absent pd pmm (pde_index vb) (pde_index-lt vb h)),
    )
    go r (inr (e, _)) = inr (rw e refl)
