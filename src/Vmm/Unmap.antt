-- ===== src/Vmm/Unmap.antt =====
-- `vm_unmap` and `vm_protect` of kernel/mm/vmm.c against the list of areas.
use it_works_os.Base.{
  ℕ, ◌+◌, ◌%◌, ◌^◌, ◌≤◌, ◌≡◌, ◌≢◌, ◌⊎◌, refl, sym, inl, inr, true, false, not, arith, ap, ◌∙◌,
  Option, none, some, List, ◌∷◌, ◌++◌, ◌||◌, ◌==◌, Bool-cases,
}
use it_works_os.Bits.Align.{align_test}
use it_works_os.Kerror.{Kerror, ok, inval, noent, is_err, not_err, err-ne}
use it_works_os.Vmm.{
  Layer, Vma, VmSpace, Node, vm_user_end, vm_user_range_valid, find_range, unmapped, unmap_at,
  vm_unmap, protected, protect_at, vm_protect, vm_map, vm_find_vma_range,
}
use it_works_os.Vmm.Areas.{
  IsOrdered, IsOrdered-taken, IsOrdered-changed, All, Spans, IsFound, find_range-IsFound,
  find_range_at, vm_user_range_valid_lem,
}
use it_works_os.Vmm.Map.{Added, MapOutcome, vm_map_lem}

module _ {W : Type 0} (layer : Layer W) (virt size : ℕ) where
  -- The area is one of the list, and exactly the range.
  abbrev pub IsArea : List Vma → Node → Type 0
  IsArea vmas n =
      (vmas ≡ n.before ++ (n.vma ∷ n.after)) × (n.vma.start ≡ virt) × (n.vma.end ≡ virt + size)

  -- Why a range that is not one area is refused.
  abbrev pub IsRefused : List Vma → Kerror → Type 0
  IsRefused vmas e =
      ((e ≡ noent) × All (λ v. ¬ Spans virt (virt + size) v) vmas)
      ⊎ ((e ≡ inval)
          × ((n : Node) × (vmas ≡ n.before ++ (n.vma ∷ n.after))
              × Spans virt (virt + size) n.vma
              × (n.vma.start ≡ virt → n.vma.end ≢ virt + size)))

  abbrev pub UnmapOutcome : VmSpace W → Kerror × VmSpace W → Type 0
  UnmapOutcome vm (e, vm') =
      let pages : Kerror × W = layer.arch_unmap virt size vm.arch in
      ((n : Node) × (e ≡ ok)
        × IsArea vm.vmas n
        × (vm'.vmas ≡ n.before ++ n.after)
        × IsOrdered 0 vm'.vmas
        × (vm'.arch ≡ layer.kfree n.vma.address pages.1)
        × (pages.0 ≡ ok))
      ⊎ ((n : Node) × (e ≢ ok) × (vm'.vmas ≡ vm.vmas) × IsArea vm.vmas n × (e ≡ pages.0))
      ⊎ ((vm' ≡ vm) × IsRefused vm.vmas e)

  module _ (vm : VmSpace W) (o : IsOrdered 0 vm.vmas) (some_bytes : size ≢ 0)
      (user : virt + size ≤ vm_user_end) where
    unmapped_at :
        (n : Node) (r : Kerror × W)
        → r ≡ layer.arch_unmap virt size vm.arch
        → IsArea vm.vmas n
        → UnmapOutcome vm (unmapped layer n vm r)
    unmapped_at n (e, w) p a = elim (Bool-cases (is_err e)) [
      | inl err ↦ rw err (inr (inl (n, err-ne e err, refl, a, ap (λ t. t.0) p)))
      | inr fine ↦ rw fine (
          inl (
            n,
            refl,
            a,
            refl,
            IsOrdered-taken n.before n.vma n.after 0 (rw a.0 at o),
            ap (λ t. layer.kfree n.vma.address t.1) p,
            sym (ap (λ t. t.0) p) ∙ not_err e fine,
          ))
    ]

    at_node :
        (f : Option Node)
        → IsFound (Spans virt (virt + size)) vm.vmas f
        → UnmapOutcome vm (unmap_at layer virt size f vm)
    at_node none i = inr (inr (refl, inl (refl, i)))
    at_node (some n) (e, spans) =
        let sum : (virt + size) % 2 ^ 32 ≡ virt + size = omega arith in
        elim (Bool-cases (not (n.vma.start == virt) || not (n.vma.end == virt + size))) [
          | inl other ↦
              rw (sum, other) (inr (inr (refl, inr (refl, (n, e, spans, λ s t. ground arith)))))
          | inr same ↦ rw (sum, same) (unmapped_at n _ refl (e, ground arith, ground arith))
        ]

    -- `vm_unmap` of a page-aligned user range takes out the area that is exactly the range and
    -- keeps the order; without such an area it changes nothing, with NOENT if no area spans the
    -- range and INVAL if a larger one does; and if the page tables fail the areas stay.
    pub vm_unmap_lem :
        align_test virt layer.page_size ≡ true
        → align_test size layer.page_size ≡ true
        → UnmapOutcome vm (vm_unmap layer virt size vm)
    unfolding vm_unmap vm_find_vma_range
    vm_unmap_lem virt_fits size_fits =
        let e : (size == 0) ≡ false = ground arith in
        let sum : (virt + size) % 2 ^ 32 ≡ virt + size = omega arith in
        let g : vm_user_range_valid virt size ≡ true =
          (vm_user_range_valid_lem virt size (omega arith)).1 (some_bytes, omega arith, inl user) in
        rw (e, virt_fits, size_fits, g)
          (at_node _ (rw sum (find_range-IsFound vm.vmas 0 virt (virt + size) o)))

    -- Changing what an area permits leaves all else of the areas as it is.
    abbrev pub ProtectOutcome : ℕ → Kerror × VmSpace W → Type 0
    ProtectOutcome flags (e, vm') =
        let pages : Kerror × W = layer.arch_protect virt size flags vm.arch in
        ((n : Node) × (e ≡ ok)
          × IsArea vm.vmas n
          × (vm'.vmas ≡ n.before ++ (record n.vma { flags = flags } ∷ n.after))
          × IsOrdered 0 vm'.vmas
          × (vm'.arch ≡ pages.1)
          × (pages.0 ≡ ok))
        ⊎ ((n : Node) × (e ≢ ok) × (vm'.vmas ≡ vm.vmas) × IsArea vm.vmas n × (e ≡ pages.0))
        ⊎ ((vm' ≡ vm) × IsRefused vm.vmas e)

    module _ (flags : ℕ) where
      protected_at :
          (n : Node) (r : Kerror × W)
          → r ≡ layer.arch_protect virt size flags vm.arch
          → IsArea vm.vmas n
          → ProtectOutcome flags (protected layer n flags vm r)
      protected_at n (e, w) p a = elim (Bool-cases (is_err e)) [
        | inl err ↦ rw err (inr (inl (n, err-ne e err, refl, a, ap (λ t. t.0) p)))
        | inr fine ↦ rw fine (
            inl (
              n,
              refl,
              a,
              refl,
              IsOrdered-changed n.before n.vma n.after 0 flags (rw a.0 at o),
              ap (λ t. t.1) p,
              sym (ap (λ t. t.0) p) ∙ not_err e fine,
            ))
      ]

      protect_node :
          (f : Option Node)
          → IsFound (Spans virt (virt + size)) vm.vmas f
          → ProtectOutcome flags (protect_at layer virt size flags f vm)
      protect_node none i = inr (inr (refl, inl (refl, i)))
      protect_node (some n) (e, spans) =
          let sum : (virt + size) % 2 ^ 32 ≡ virt + size = omega arith in
          elim (Bool-cases (not (n.vma.start == virt) || not (n.vma.end == virt + size))) [
            | inl other ↦
                rw (sum, other) (inr (inr (refl, inr (refl, (n, e, spans, λ s t. ground arith)))))
            | inr same ↦ rw (sum, same) (protected_at n _ refl (e, ground arith, ground arith))
          ]

      -- `vm_protect` of a page-aligned user range changes the flags of the area that is exactly
      -- the range and nothing else of the areas; it refuses as `vm_unmap` does.
      pub vm_protect_lem :
          align_test virt layer.page_size ≡ true
          → align_test size layer.page_size ≡ true
          → ProtectOutcome flags (vm_protect layer virt size flags vm)
      unfolding vm_protect vm_find_vma_range
      vm_protect_lem virt_fits size_fits =
          let e : (size == 0) ≡ false = ground arith in
          let sum : (virt + size) % 2 ^ 32 ≡ virt + size = omega arith in
          let g : vm_user_range_valid virt size ≡ true =
            (vm_user_range_valid_lem virt size (omega arith)).1
              (some_bytes, omega arith, inl user) in
          rw (e, virt_fits, size_fits, g)
            (protect_node _ (rw sum (find_range-IsFound vm.vmas 0 virt (virt + size) o)))

    module _ (flags phys : ℕ) where
      unmap-Added :
          (vm1 : VmSpace W)
          → Added layer virt size flags vm vm1.vmas
          → (layer.arch_unmap virt size vm1.arch).0 ≡ ok
          → ((unmap_at layer virt size (find_range vm1.vmas virt (virt + size)) vm1).0 ≡ ok)
            × ((unmap_at layer virt size (find_range vm1.vmas virt (virt + size)) vm1).1.vmas
                ≡ vm.vmas)
      unmap-Added vm1 a pages =
          let n = a.node in
          let sum : (virt + size) % 2 ^ 32 ≡ virt + size = omega arith in
          let f : find_range vm1.vmas virt (virt + size) ≡ some n = rw a.new (
            find_range_at n.before n.vma n.after 0 virt (virt + size) (rw a.new at a.ordered)
              (omega (arith, a.starts), omega (arith, a.ends)) (omega arith)) in
          let same : (not (n.vma.start == virt) || not (n.vma.end == virt + size)) ≡ false =
            ground (arith, a.starts, a.ends) in
          rw (f, sum, same, pages) (refl, sym a.old)

      -- Unmapping a non-empty, page-aligned range that ends at 0xC0000000 or below and was just mapped,
      -- to page-aligned physical addresses that end at 2^64 or below, succeeds, if the page tables do,
      -- and leaves exactly the areas from before, which were in order.
      pub vm_unmap-vm_map :
          {vm1 : VmSpace W}
          → phys + size ≤ 2 ^ 64
          → align_test virt layer.page_size ≡ true
          → align_test phys layer.page_size ≡ true
          → align_test size layer.page_size ≡ true
          → vm_map layer virt phys size flags vm ≡ (ok, vm1)
          → (layer.arch_unmap virt size vm1.arch).0 ≡ ok
          → ((vm_unmap layer virt size vm1).0 ≡ ok)
            × ((vm_unmap layer virt size vm1).1.vmas ≡ vm.vmas)
      unfolding vm_unmap vm_find_vma_range
      vm_unmap-vm_map {vm1 = vm1} phys_user virt_fits phys_fits size_fits mapped pages =
          let e : (size == 0) ≡ false = ground arith in
          let sum : (virt + size) % 2 ^ 32 ≡ virt + size = omega arith in
          let g : vm_user_range_valid virt size ≡ true =
            (vm_user_range_valid_lem virt size (omega arith)).1
              (some_bytes, omega arith, inl user) in
          let added =
            go _
              (vm_map_lem layer virt size flags phys vm some_bytes user o phys_user virt_fits
                phys_fits size_fits)
              mapped in
          rw (e, virt_fits, size_fits, g, sum) (unmap-Added vm1 added pages)
        where
          go :
              (r : Kerror × VmSpace W)
              → MapOutcome layer virt size flags phys vm r
              → r ≡ (ok, vm1)
              → Added layer virt size flags vm vm1.vmas
          go (e, t) (inl (_, a, _, _)) eq = let d : t ≡ vm1 = cc in rw d at a
          go (e, t) (inr (inl (code, _, _))) eq = cc
          go (e, t) (inr (inr (inl (code, _, _)))) eq = cc
          go (e, t) (inr (inr (inr (code, _, _)))) eq = absurd (code (ap (λ t. t.0) eq))
