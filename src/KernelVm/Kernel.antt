-- ===== src/KernelVm/Kernel.antt =====
-- The calls of kernel/mm/kernel_vm.c keep to the addresses of the kernel.
use it_works_os.Base.{
  ℕ, ◌+◌, ◌^◌, ◌≤◌, ◌<◌, ◌≡◌, ◌≢◌, ◌⊎◌, inl, inr, refl, arith, true, not, if◌then◌else◌, Bool-cases,
  ◌↔◌,
}
use it_works_os.Kerror.{Kerror, inval}
use it_works_os.KernelVm.{vm_kern_range_valid, vm_kern_map, vm_kern_unmap, vm_kern_protect}
use it_works_os.Paging.{Machine, walk, arch_vm_map, arch_vm_unmap, arch_vm_protect}
use it_works_os.Paging.Change.{
  CallOutcome, unmapped, protected, arch_vm_unmap_lem, arch_vm_protect_lem,
}
use it_works_os.Paging.Map.{MapOutcome, arch_vm_map_lem}
use it_works_os.Paging.Space.{IsSpace}

-- A range of kernel addresses, which does not wrap.
abbrev pub IsKernelRange : ℕ → ℕ → Type 0
IsKernelRange virt size = (size ≢ 0) × (0xC0000000 ≤ virt) × (virt + size ≤ 2 ^ 32)

pub vm_kern_range_valid_lem :
    (virt size : ℕ)
    → virt < 2 ^ 32
    → (vm_kern_range_valid virt size ≡ true) ↔ IsKernelRange virt size
unfolding vm_kern_range_valid
vm_kern_range_valid_lem virt size h = ground arith

-- The invariant of the page tables is kept, and every user address is found as before.
abbrev pub KeepsUser : ℕ → Machine → Machine → Type 0
KeepsUser pd m m' = IsSpace pd m' × ((vb : ℕ) → vb < 0xC0000000 → walk pd vb m' ≡ walk pd vb m)

-- INVAL without a change outside the kernel's addresses, and never a change of the user's.
abbrev pub KernelOutcome : ℕ → ℕ → ℕ → Machine → Kerror × Machine → Type 0
KernelOutcome pd virt size m r =
    ((¬ IsKernelRange virt size) × (r ≡ (inval, m)))
    ⊎ (IsKernelRange virt size × KeepsUser pd m r.1)

module _ {pd : ℕ} {m : Machine} (virt size : ℕ) (v : IsSpace pd m) (word : virt < 2 ^ 32) where
  guarded :
      (r : Kerror × Machine)
      → (IsKernelRange virt size → KeepsUser pd m r.1)
      → KernelOutcome pd virt size m (if not (vm_kern_range_valid virt size) then (inval, m) else r)
  guarded r keeps = elim (Bool-cases (vm_kern_range_valid virt size)) [
    | inl e ↦ let is = (vm_kern_range_valid_lem virt size word).0 e in rw e (inr (is, keeps is))
    | inr e ↦
        rw e (inl (λ is. let yes_valid = (vm_kern_range_valid_lem virt size word).1 is in cc, refl))
  ]

  map_keeps :
      (phys flags : ℕ) (e : Kerror) (m' : Machine)
      → IsKernelRange virt size
      → MapOutcome pd virt phys size flags m (e, m')
      → KeepsUser pd m m'
  map_keeps phys flags e m' is (inl (_, _, same)) = rw same (v, λ vb h. refl)
  map_keeps phys flags e m' (_, low, _) (inr (_, av, _, _, inl (_, mapped))) =
      (mapped.space, λ vb h. mapped.others vb (omega arith) (inl (omega arith)))
  map_keeps phys flags e m' (_, low, _) (inr (_, av, _, _, inr (k, less, _, mapped))) =
      (mapped.space, λ vb h. mapped.others vb (omega arith) (inl (omega arith)))

  change_keeps :
      (after : ℕ × ℕ → Kerror ⊎ (ℕ × ℕ)) (e : Kerror) (m' : Machine)
      → IsKernelRange virt size
      → CallOutcome after pd virt size m (e, m')
      → KeepsUser pd m m'
  change_keeps after e m' is (inl (_, _, same)) = rw same (v, λ vb h. refl)
  change_keeps after e m' (_, low, _) (inr (_, av, _, inl (_, changed))) =
      (changed.space, λ vb h. changed.others vb (omega arith) (inl (omega arith)))
  change_keeps after e m' (_, low, _) (inr (_, av, _, inr (_, k, less, _, changed))) =
      (changed.space, λ vb h. changed.others vb (omega arith) (inl (omega arith)))

  -- vm_kern_map, vm_kern_unmap and vm_kern_protect are INVAL without a change on a range that is
  -- empty, starts below the kernel's addresses or passes the end of the 32-bit addresses. On any
  -- other they keep the invariant of the page tables and leave every user address as it was, also
  -- where they fail midway; for vm_kern_map the frames lie below 2^32.
  pub vm_kern_lem :
      (phys flags : ℕ)
      → phys + size ≤ 2 ^ 32
      → KernelOutcome pd virt size m (vm_kern_map pd virt phys size flags m)
        × KernelOutcome pd virt size m (vm_kern_unmap pd virt size m)
        × KernelOutcome pd virt size m (vm_kern_protect pd virt size flags m)
  unfolding vm_kern_map vm_kern_unmap vm_kern_protect
  vm_kern_lem phys flags fits_p = (
    guarded (arch_vm_map pd virt phys size flags m)
        (λ is. map_keeps phys flags _ _ is (arch_vm_map_lem virt phys size flags v is.2 fits_p)),
    guarded (arch_vm_unmap pd virt size m)
        (λ is. change_keeps unmapped _ _ is (arch_vm_unmap_lem virt size v is.2)),
    guarded (arch_vm_protect pd virt size flags m)
        (λ is. change_keeps (protected flags) _ _ is (arch_vm_protect_lem virt size v is.2 flags)),
  )
