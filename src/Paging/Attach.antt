-- ===== src/Paging/Attach.antt =====
-- `arch_vm_space_attach_kernel` of kernel/arch/x86/mm.c.
use it_works_os.Base.{
  ℕ, zero, suc, ◌+◌, ◌^◌, ◌≤◌, ◌<◌, ◌≡◌, ◌≢◌, inl, refl, sym, ◌∙◌, arith, leb, ltb, ◌&&◌,
  if◌then◌else◌,
}
use it_works_os.Kerror.{ok}
use it_works_os.Pmm.{Pmm}
use it_works_os.Paging.{
  Machine, read_entry, pde_index, pte_index, walk, copy_entries, arch_vm_space_attach_kernel,
}
use it_works_os.Paging.Pages.{IsPage, read-write_other, read-write_same}
use it_works_os.Paging.Space.{IsSpace, HasTable, table_of, walk-agree, pde_index-lt, pte_index-lt}

module _ {pmm : Pmm} {pd kernel_pd : ℕ} (dir : IsPage pmm pd) (kernel_dir : IsPage pmm kernel_pd)
    (other : pd ≢ kernel_pd) where
  copied :
      (n i j : ℕ) (m : Machine)
      → i + n ≤ 1024
      → j < 1024
      → read_entry (copy_entries pd kernel_pd n i m) pd j
        ≡ (if leb i j && ltb j (i + n) then read_entry m kernel_pd j else read_entry m pd j)
  unfolding copy_entries
  copied zero i j m hi hj = ground arith
  copied (suc n) i j m hi hj =
      copied n (i + 1) j _ (omega arith) hj
      ∙ ground (
        arith,
        read-write_other dir dir m {i = i} {j = j} (read_entry m kernel_pd i) (omega arith) hj,
        read-write_same m pd i (read_entry m kernel_pd i),
        read-write_other dir kernel_dir m {i = i} {j = j} (read_entry m kernel_pd i) (omega arith)
            hj (inl other),
      )

  kept :
      (n i j t : ℕ) (m : Machine)
      → i + n ≤ 1024
      → j < 1024
      → IsPage pmm t
      → pd ≢ t
      → read_entry (copy_entries pd kernel_pd n i m) t j ≡ read_entry m t j
  unfolding copy_entries
  kept zero i j t m hi hj page ne = refl
  kept (suc n) i j t m hi hj page ne =
      kept n (i + 1) j t _ (omega arith) hj page ne
      ∙ read-write_other dir page m _ (omega arith) hj (inl ne)

-- `arch_vm_space_attach_kernel` of two valid spaces, where the directory of the process is not a page of
-- the kernel's space, makes each kernel address be found as in the kernel's space, and each user
-- address as before; the kernel's space is not changed.
pub arch_vm_space_attach_kernel_lem :
    {pd kernel_pd : ℕ} {m : Machine}
    → IsSpace pd m
    → IsSpace kernel_pd m
    → pd ≢ kernel_pd
    → ((i : ℕ) → i < 1024 → HasTable kernel_pd m i → pd ≢ table_of kernel_pd m i)
    → let (e, m') = arch_vm_space_attach_kernel pd kernel_pd m in
      (e ≡ ok)
      × ((vb : ℕ) → 0xC0000000 ≤ vb → vb < 2 ^ 32 → walk pd vb m' ≡ walk kernel_pd vb m)
      × ((vb : ℕ) → vb < 0xC0000000 → walk pd vb m' ≡ walk pd vb m)
      × ((vb : ℕ) → vb < 2 ^ 32 → walk kernel_pd vb m' ≡ walk kernel_pd vb m)
unfolding arch_vm_space_attach_kernel
arch_vm_space_attach_kernel_lem {pd} {kernel_pd} {m} v k other outside = (
  refl,
  λ vb lo hi.
      let hj = pde_index-lt vb hi in
      walk-agree pd kernel_pd vb m _
        (ground
          (arith, copied v.directory k.directory other 256 768 (pde_index vb) m (omega arith) hj))
        (λ has.
          kept v.directory k.directory other 256 768 (pte_index vb) _ m (omega arith)
            (pte_index-lt vb) (k.table (pde_index vb) hj has) (outside (pde_index vb) hj has)),
  λ vb hi.
      let hj : pde_index vb < 1024 = omega arith in
      walk-agree pd pd vb m _
        (ground
          (arith, copied v.directory k.directory other 256 768 (pde_index vb) m (omega arith) hj))
        (λ has.
          kept v.directory k.directory other 256 768 (pte_index vb) _ m (omega arith)
            (pte_index-lt vb) (v.table (pde_index vb) hj has)
            (λ e. v.not_directory (pde_index vb) hj has (sym e))),
  λ vb hi.
      let hj = pde_index-lt vb hi in
      walk-agree kernel_pd kernel_pd vb m _
        (kept v.directory k.directory other 256 768 (pde_index vb) kernel_pd m (omega arith) hj
          k.directory other)
        (λ has.
          kept v.directory k.directory other 256 768 (pte_index vb) _ m (omega arith)
            (pte_index-lt vb) (k.table (pde_index vb) hj has) (outside (pde_index vb) hj has)),
)
