-- ===== src/Vmm/Tests.antt =====
-- Runs of kernel/mm/vmm.c over page tables that never fail and a heap that counts its blocks.
use it_works_os.Base.{ℕ, ◌+◌, ◌*◌, ◌≡◌, refl, arith, some, [], ◌∷◌}
use it_works_os.Kerror.{ok}
use it_works_os.Vmm.{
  Layer, Vma, VmSpace, vm_user_range_valid, vm_map, vm_unmap, vm_add_vma, vm_phys_range_valid,
  place,
}
use it_works_os.Vmm.Areas.{IsOrdered}
use it_works_os.Vmm.Map.{MapOutcome, vm_map_lem}
use it_works_os.Vmm.Unmap.{vm_unmap-vm_map}

abbrev layer : Layer ℕ
layer = record {
  page_size = 4096;
  arch_map = λ virt phys size flags w. (ok, w);
  arch_unmap = λ virt size w. (ok, w);
  arch_protect = λ virt size flags w. (ok, w);
  arch_init = λ w. (ok, w);
  arch_destroy = λ w. (ok, w);
  arch_load = λ w. (ok, w);
  kern_init = λ w. (ok, w);
  attach = λ w. (ok, w);
  kmalloc = λ size w. (some (w * 32), w + 1);
  kfree = λ address w. w;
}

abbrev low : Vma
low = record { address = 0; start = 4096; end = 8192; flags = 1 }

abbrev high : Vma
high = record { address = 32; start = 16384; end = 24576; flags = 3 }

abbrev space : VmSpace ℕ
space = record { vmas = low ∷ high ∷ []; arch = 2 }

abbrev grown : VmSpace ℕ
grown = record {
  vmas = low ∷ (record { address = 64; start = 8192; end = 16384; flags = 5 }) ∷ high ∷ [];
  arch = 3;
}

space-IsOrdered : IsOrdered 0 space.vmas
space-IsOrdered =
    (omega arith, omega arith, omega arith, (omega arith, omega arith, omega arith, tt))

map_between : vm_map layer 8192 1048576 8192 5 space ≡ (ok, grown)
unfolding vm_map vm_add_vma vm_user_range_valid vm_phys_range_valid place
map_between = refl

vm_map_lem_example :
    MapOutcome layer 8192 8192 5 1048576 space (vm_map layer 8192 1048576 8192 5 space)
vm_map_lem_example =
    vm_map_lem layer 8192 8192 5 1048576 space (omega arith) (omega arith) space-IsOrdered
      (omega arith) refl refl refl

vm_unmap-vm_map_example :
    ((vm_unmap layer 8192 8192 grown).0 ≡ ok)
    × ((vm_unmap layer 8192 8192 grown).1.vmas ≡ space.vmas)
vm_unmap-vm_map_example =
    vm_unmap-vm_map layer 8192 8192 space space-IsOrdered (omega arith) (omega arith) 5 1048576
      (omega arith) refl refl refl map_between refl
