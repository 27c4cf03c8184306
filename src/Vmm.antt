-- ===== src/Vmm.antt =====
-- kernel/mm/vmm.c: the virtual memory areas of an address space. The linked list of areas is a
-- list, and a pointer to a node is the split of the list at it. The page tables and the kernel
-- heap below are a state `W`, reached by the functions of a `Layer`.
pub mod Areas
pub mod Map
pub mod Unmap
mod Tests
use it_works_os.Base.{
  ℕ, ◌+◌, ◌-◌, ◌%◌, ◌^◌, Bool, true, false, not, ◌&&◌, ◌||◌, Option, none, some, List, [], ◌∷◌,
  ◌++◌, if◌then◌else◌, ◌==◌, ltb, leb,
}
use it_works_os.Bits.Align.{align_test}
use it_works_os.Kerror.{Kerror, ok, inval, noent, nomem, exists, is_err}

-- What vmm.c calls: kernel/include/arch/mm.h, kernel/include/mm/kernel_vm.h and
-- kernel/include/mm/kheap.h.
pub record Layer (W : Type 0) : Type 0 where
  pub page_size : ℕ
  pub arch_map : ℕ → ℕ → ℕ → ℕ → W → Kerror × W
  pub arch_unmap : ℕ → ℕ → W → Kerror × W
  pub arch_protect : ℕ → ℕ → ℕ → W → Kerror × W
  pub arch_init : W → Kerror × W
  pub arch_destroy : W → Kerror × W
  pub arch_load : W → Kerror × W
  pub kern_init : W → Kerror × W
  pub attach : W → Kerror × W
  pub kmalloc : ℕ → W → Option ℕ × W
  pub kfree : ℕ → W → W

-- `struct vma`, with the address where it is stored
pub record Vma : Type 0 where
  pub address : ℕ
  pub start : ℕ
  pub end : ℕ
  pub flags : ℕ

-- `sizeof(struct vma)`
abbrev pub vma_size : ℕ
vma_size = 20

-- `struct vm_space`
pub record VmSpace (W : Type 0) : Type 0 where
  pub vmas : List Vma
  pub arch : W

-- A node in its list: what is before it and what after.
pub record Node : Type 0 where
  pub before : List Vma
  pub vma : Vma
  pub after : List Vma

-- `VM_USER_END`
abbrev pub vm_user_end : ℕ
vm_user_end = 0xC0000000

-- `vm_user_range_valid`, in 32-bit words; VM_USER_START is 0, and no address is below it.
pub vm_user_range_valid : ℕ → ℕ → Bool
vm_user_range_valid virt size =
    if size == 0
    then false
    else if leb vm_user_end virt
    then false
    else if ltb (2 ^ 32 - 1 - virt) (size - 1)
    then false
    else leb ((virt + size) % 2 ^ 32) vm_user_end

-- `vm_phys_range_valid`, where the physical address has 64 bits
pub vm_phys_range_valid : ℕ → ℕ → Bool
vm_phys_range_valid phys size =
    if size == 0 then false else if ltb (2 ^ 64 - 1 - phys) (size - 1) then false else true

-- `list_insert_before(node, &new_vma->vmas_node)`, at the place behind `before`.
abbrev pub behind : Vma → Option Node → Option Node
behind v none = none
behind v (some n) = some (record n { before = v ∷ n.before })

-- The loop of `vm_find_vma_range`, for the addresses from `virt` up to `end`.
pub find_range : List Vma → ℕ → ℕ → Option Node
find_range [] virt end = none
find_range (v ∷ vs) virt end =
    let rest = behind v (find_range vs virt end) in
    if ltb virt v.start
    then none
    else if leb v.start virt && leb end v.end
    then some (record { before = []; vma = v; after = vs })
    else rest

-- The loop of `vm_find_vma`
pub find_from : List Vma → ℕ → Option Node
find_from [] virt = none
find_from (v ∷ vs) virt =
    let rest = behind v (find_from vs virt) in
    if ltb virt v.start
    then none
    else if leb v.start virt && ltb virt v.end
    then some (record { before = []; vma = v; after = vs })
    else rest

pub vm_find_vma_range : List Vma → ℕ → ℕ → Option Node
vm_find_vma_range vmas virt size =
    if not (vm_user_range_valid virt size)
    then none
    else find_range vmas virt ((virt + size) % 2 ^ 32)

pub vm_find_vma : List Vma → ℕ → Option Node
vm_find_vma vmas virt = if leb vm_user_end virt then none else find_from vmas virt

-- The place before the node where a loop stops.
pub record Place : Type 0 where
  pub before : List Vma
  pub after : List Vma

-- The loop of `vm_add_vma`: `none` if the new range overlaps an area.
pub place : List Vma → ℕ → ℕ → Option Place
place [] virt new_end = some (record { before = []; after = [] })
place (v ∷ vs) virt new_end =
    let rest = place vs virt new_end in
    if leb v.end virt
    then elim rest [ none ↦ none | some p ↦ some (record p { before = v ∷ p.before }) ]
    else if leb new_end v.start
    then some (record { before = []; after = v ∷ vs })
    else none

module _ {W : Type 0} (layer : Layer W) where
  -- The end of `vm_add_vma`, at the result of `kmalloc`.
  abbrev pub insert : ℕ → ℕ → ℕ → Place → VmSpace W → Option ℕ × W → Kerror × VmSpace W
  insert virt new_end flags p vm (none, w) = (nomem, record vm { arch = w })
  insert virt new_end flags p vm (some a, w) = (
    ok,
    record {
      vmas =
          p.before
          ++ (record { address = a; start = virt; end = new_end; flags = flags } ∷ p.after);
      arch = w;
    },
  )

  -- `vm_add_vma`, after its guards
  abbrev pub add_at : ℕ → ℕ → ℕ → Option Place → VmSpace W → Kerror × VmSpace W
  add_at virt new_end flags none vm = (exists, vm)
  add_at virt new_end flags (some p) vm =
      insert virt new_end flags p vm (layer.kmalloc vma_size vm.arch)

  pub vm_add_vma : ℕ → ℕ → ℕ → VmSpace W → Kerror × VmSpace W
  vm_add_vma virt size flags vm =
      let new_end = (virt + size) % 2 ^ 32 in
      if size == 0
      then (inval, vm)
      else if not (align_test virt layer.page_size) || not (align_test size layer.page_size)
      then (inval, vm)
      else if not (vm_user_range_valid virt size)
      then (inval, vm)
      else add_at virt new_end flags (place vm.vmas virt new_end) vm

  -- `list_remove(&vma->vmas_node); kfree(vma)`
  abbrev pub drop_node : Node → VmSpace W → VmSpace W
  drop_node n vm = record { vmas = n.before ++ n.after; arch = layer.kfree n.vma.address vm.arch }

  abbrev pub remove_at : Option Node → VmSpace W → Kerror × VmSpace W
  remove_at none vm = (noent, vm)
  remove_at (some n) vm = (ok, drop_node n vm)

  pub vm_remove_vma : ℕ → VmSpace W → Kerror × VmSpace W
  vm_remove_vma virt vm = remove_at (vm_find_vma vm.vmas virt) vm

  -- The end of `vm_map`, at the result of `arch_vm_map`.
  abbrev pub settle : ℕ → VmSpace W → Kerror × W → Kerror × VmSpace W
  settle virt vm (err, w) =
      let vm' : VmSpace W = record vm { arch = w } in
      if is_err err then (err, (vm_remove_vma virt vm').1) else (ok, vm')

  -- What follows `vm_add_vma` in `vm_map`.
  abbrev pub map_pages : ℕ → ℕ → ℕ → ℕ → Kerror × VmSpace W → Kerror × VmSpace W
  map_pages virt phys size flags (e, vm) =
      if is_err e then (e, vm) else settle virt vm (layer.arch_map virt phys size flags vm.arch)

  pub vm_map : ℕ → ℕ → ℕ → ℕ → VmSpace W → Kerror × VmSpace W
  vm_map virt phys size flags vm =
      if size == 0
      then (inval, vm)
      else if not (align_test virt layer.page_size)
          || (not (align_test phys layer.page_size) || not (align_test size layer.page_size))
      then (inval, vm)
      else if not (vm_user_range_valid virt size)
      then (inval, vm)
      else if not (vm_phys_range_valid phys size)
      then (inval, vm)
      else map_pages virt phys size flags (vm_add_vma virt size flags vm)

  -- The end of `vm_unmap`, at the result of `arch_vm_unmap`.
  abbrev pub unmapped : Node → VmSpace W → Kerror × W → Kerror × VmSpace W
  unmapped n vm (e, w) =
      if is_err e then (e, record vm { arch = w }) else (ok, drop_node n (record vm { arch = w }))

  abbrev pub unmap_at : ℕ → ℕ → Option Node → VmSpace W → Kerror × VmSpace W
  unmap_at virt size none vm = (noent, vm)
  unmap_at virt size (some n) vm =
      if not (n.vma.start == virt) || not (n.vma.end == (virt + size) % 2 ^ 32)
      then (inval, vm)
      else unmapped n vm (layer.arch_unmap virt size vm.arch)

  pub vm_unmap : ℕ → ℕ → VmSpace W → Kerror × VmSpace W
  vm_unmap virt size vm =
      if size == 0
      then (inval, vm)
      else if not (align_test virt layer.page_size) || not (align_test size layer.page_size)
      then (inval, vm)
      else if not (vm_user_range_valid virt size)
      then (inval, vm)
      else unmap_at virt size (vm_find_vma_range vm.vmas virt size) vm

  -- The end of `vm_protect`, at the result of `arch_vm_protect`.
  abbrev pub protected : Node → ℕ → VmSpace W → Kerror × W → Kerror × VmSpace W
  protected n flags vm (e, w) =
      if is_err e
      then (e, record vm { arch = w })
      else (ok, record { vmas = n.before ++ (record n.vma { flags = flags } ∷ n.after); arch = w })

  abbrev pub protect_at : ℕ → ℕ → ℕ → Option Node → VmSpace W → Kerror × VmSpace W
  protect_at virt size flags none vm = (noent, vm)
  protect_at virt size flags (some n) vm =
      if not (n.vma.start == virt) || not (n.vma.end == (virt + size) % 2 ^ 32)
      then (inval, vm)
      else protected n flags vm (layer.arch_protect virt size flags vm.arch)

  pub vm_protect : ℕ → ℕ → ℕ → VmSpace W → Kerror × VmSpace W
  vm_protect virt size flags vm =
      if size == 0
      then (inval, vm)
      else if not (align_test virt layer.page_size) || not (align_test size layer.page_size)
      then (inval, vm)
      else if not (vm_user_range_valid virt size)
      then (inval, vm)
      else protect_at virt size flags (vm_find_vma_range vm.vmas virt size) vm

  -- `vm_space_init`: attaching the kernel's tables may fail, and then the new ones are destroyed.
  abbrev pub attached : Kerror × W → Kerror × VmSpace W
  attached (e, w) =
      if is_err e
      then (e, record { vmas = []; arch = (layer.arch_destroy w).1 })
      else (ok, record { vmas = []; arch = w })

  abbrev pub created : Kerror × W → Kerror × VmSpace W
  created (e, w) =
      if is_err e then (e, record { vmas = []; arch = w }) else attached (layer.attach w)

  pub vm_space_init : VmSpace W → Kerror × VmSpace W
  vm_space_init vm = created (layer.arch_init vm.arch)

  -- The loop of `vm_space_destroy`
  pub free_all : List Vma → W → W
  free_all [] w = w
  free_all (v ∷ vs) w = free_all vs (layer.kfree v.address w)

  pub vm_space_destroy : VmSpace W → Kerror × VmSpace W
  vm_space_destroy vm =
      let (e, w) = layer.arch_destroy (free_all vm.vmas vm.arch) in
      (e, record { vmas = []; arch = w })

  pub vm_space_load : VmSpace W → Kerror × VmSpace W
  vm_space_load vm = let (e, w) = layer.arch_load vm.arch in (e, record vm { arch = w })

  pub vmm_init : W → Kerror × W
  vmm_init w = layer.kern_init w
