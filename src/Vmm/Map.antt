-- ===== src/Vmm/Map.antt =====
-- `vm_map` and `vm_add_vma` of kernel/mm/vmm.c against the list of areas.
use it_works_os.Base.{
  ℕ, ◌+◌, ◌-◌, ◌%◌, ◌^◌, ◌≤◌, ◌≡◌, ◌≢◌, ◌⊎◌, refl, sym, inl, inr, true, false, arith, ap, ◌∙◌,
  Option, none, some, List, ◌∷◌, ◌++◌, ◌==◌, ltb, leb, Bool-cases,
}
use it_works_os.Bits.Align.{align_test}
use it_works_os.Kerror.{Kerror, ok, nomem, exists, is_err, not_err, err-ne}
use it_works_os.Vmm.{
  Layer, Vma, VmSpace, Node, Place, vma_size, vm_user_end, vm_user_range_valid, vm_phys_range_valid,
  find_from, insert, add_at, vm_add_vma, vm_remove_vma, vm_find_vma, settle, map_pages, vm_map,
}
use it_works_os.Vmm.Areas.{
  IsOrdered, All, IsApart, IsPlace, place-IsPlace, find_from_at, vm_user_range_valid_lem,
}

module _ {W : Type 0} (layer : Layer W) (virt size flags : ℕ) where
  -- The new area stands in its place between the others, and the list is still in order.
  pub record Added (vm : VmSpace W) (vmas : List Vma) : Type 0 where
    pub node : Node
    pub old : vm.vmas ≡ node.before ++ node.after
    pub new : vmas ≡ node.before ++ (node.vma ∷ node.after)
    pub starts : node.vma.start ≡ virt
    pub ends : node.vma.end ≡ virt + size
    pub permits : node.vma.flags ≡ flags
    pub ordered : IsOrdered 0 vmas

  abbrev pub AddOutcome : VmSpace W → Kerror × VmSpace W → Type 0
  AddOutcome vm (e, vm') =
      ((e ≡ ok) × Added vm vm'.vmas × (vm'.arch ≡ (layer.kmalloc vma_size vm.arch).1))
      ⊎ ((e ≡ exists) × (vm' ≡ vm) × ¬ All (IsApart virt (virt + size)) vm.vmas)
      ⊎ ((e ≡ nomem) × (vm'.vmas ≡ vm.vmas) × ((layer.kmalloc vma_size vm.arch).0 ≡ none))

  module _ (vm : VmSpace W) (o : IsOrdered 0 vm.vmas) (some_bytes : size ≢ 0)
      (user : virt + size ≤ vm_user_end) where
    at_memory :
        (p : Place) (m : Option ℕ × W)
        → m ≡ layer.kmalloc vma_size vm.arch
        → IsPlace 0 vm.vmas virt (virt + size) (some p)
        → AddOutcome vm (insert layer virt (virt + size) flags p vm m)
    at_memory p (none, w) m i = inr (inr (refl, refl, sym (ap (λ t. t.0) m)))
    at_memory p (some a, w) m (e, put, apart) = inl (
      refl,
      record {
        node = record {
          before = p.before;
          vma = record { address = a; start = virt; end = virt + size; flags = flags };
          after = p.after;
        };
        old = e;
        new = refl;
        starts = refl;
        ends = refl;
        permits = refl;
        ordered = put _ refl refl;
      },
      ap (λ t. t.1) m,
    )

    at_place :
        (p : Option Place)
        → IsPlace 0 vm.vmas virt (virt + size) p
        → AddOutcome vm (add_at layer virt (virt + size) flags p vm)
    at_place none clash = inr (inl (refl, refl, clash))
    at_place (some p) i = at_memory p _ refl i

    pub vm_add_vma_lem :
        align_test virt layer.page_size ≡ true
        → align_test size layer.page_size ≡ true
        → AddOutcome vm (vm_add_vma layer virt size flags vm)
    unfolding vm_add_vma
    vm_add_vma_lem virt_fits size_fits =
        let e : (size == 0) ≡ false = ground arith in
        let f : (virt + size) % 2 ^ 32 ≡ virt + size = omega arith in
        let g : vm_user_range_valid virt size ≡ true =
          (vm_user_range_valid_lem virt size (omega arith)).1 (some_bytes, omega arith, inl user) in
        rw (e, virt_fits, size_fits, g, f)
          (at_place _
            (place-IsPlace vm.vmas 0 virt (virt + size) o (omega arith) (omega arith) user))

  module _ (phys : ℕ) where
    -- Mapping succeeds with the area added; or it fails, for one of three reasons, and the areas
    -- are those from before.
    abbrev pub MapOutcome : VmSpace W → Kerror × VmSpace W → Type 0
    MapOutcome vm (e, vm') =
        let memory : Option ℕ × W = layer.kmalloc vma_size vm.arch in
        let pages : Kerror × W = layer.arch_map virt phys size flags memory.1 in
        ((e ≡ ok) × Added vm vm'.vmas × (vm'.arch ≡ pages.1) × (pages.0 ≡ ok))
        ⊎ ((e ≡ exists) × (vm' ≡ vm) × ¬ All (IsApart virt (virt + size)) vm.vmas)
        ⊎ ((e ≡ nomem) × (vm'.vmas ≡ vm.vmas) × (memory.0 ≡ none))
        ⊎ ((e ≢ ok) × (vm'.vmas ≡ vm.vmas) × (e ≡ pages.0))

    module _ (vm : VmSpace W) (some_bytes : size ≢ 0) (user : virt + size ≤ vm_user_end) where
      -- `vm_remove_vma` finds the area that was just added.
      undone :
          (vm' : VmSpace W) → Added vm vm'.vmas → (vm_remove_vma layer virt vm').1.vmas ≡ vm.vmas
      unfolding vm_remove_vma vm_find_vma
      undone vm' a =
          let e : leb vm_user_end virt ≡ false = ground arith in
          let n = a.node in
          let f : find_from vm'.vmas virt ≡ some n = rw a.new (
            find_from_at n.before n.vma n.after 0 virt (rw a.new at a.ordered)
              (omega (arith, a.starts), omega (arith, a.starts, a.ends))) in
          rw (e, f) (sym a.old)

      at_pages :
          (vm1 : VmSpace W) (r : Kerror × W)
          → vm1.arch ≡ (layer.kmalloc vma_size vm.arch).1
          → r ≡ layer.arch_map virt phys size flags vm1.arch
          → Added vm vm1.vmas
          → MapOutcome vm (settle layer virt vm1 r)
      at_pages vm1 (e, w) m p a =
          let same = p ∙ ap (λ w. layer.arch_map virt phys size flags w) m in
          elim (Bool-cases (is_err e)) [
            | inl err ↦ rw err (
                inr (
                  inr (inr (err-ne e err, undone (record vm1 { arch = w }) a, ap (λ t. t.0) same))))
            | inr fine ↦
                rw fine
                  (inl (refl, a, ap (λ t. t.1) same, sym (ap (λ t. t.0) same) ∙ not_err e fine))
          ]

      at_area :
          (r : Kerror × VmSpace W)
          → AddOutcome vm r
          → MapOutcome vm (map_pages layer virt phys size flags r)
      at_area (e, vm1) (inl (code, a, m)) = rw code (at_pages vm1 _ m refl a)
      at_area (e, vm1) (inr (inl (code, same, clash))) = rw code (inr (inl (refl, same, clash)))
      at_area (e, vm1) (inr (inr (code, same, full))) = rw code (inr (inr (inl (refl, same, full))))

      -- `vm_map` of a non-empty, page-aligned range that ends at 0xC0000000 or below, to page-aligned
      -- physical addresses that end at 2^64 or below, in areas that are in order, adds the area in
      -- its place and keeps the order, or fails and leaves the areas as before: with
      -- EXISTS if one of them overlaps the new range, NOMEM if there is no memory for the area, or
      -- with the code of the page tables, whose failure takes the area out again.
      pub vm_map_lem :
          IsOrdered 0 vm.vmas
          → phys + size ≤ 2 ^ 64
          → align_test virt layer.page_size ≡ true
          → align_test phys layer.page_size ≡ true
          → align_test size layer.page_size ≡ true
          → MapOutcome vm (vm_map layer virt phys size flags vm)
      unfolding vm_map vm_phys_range_valid
      vm_map_lem o phys_user virt_fits phys_fits size_fits =
          let e : (size == 0) ≡ false = ground arith in
          let g : vm_user_range_valid virt size ≡ true =
            (vm_user_range_valid_lem virt size (omega arith)).1
              (some_bytes, omega arith, inl user) in
          let h : ltb (2 ^ 64 - 1 - phys) (size - 1) ≡ false = ground arith in
          rw (e, virt_fits, phys_fits, size_fits, g, h)
            (at_area _ (vm_add_vma_lem vm o some_bytes user virt_fits size_fits))
