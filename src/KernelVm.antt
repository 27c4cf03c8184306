-- ===== src/KernelVm.antt =====
-- Model of kernel/mm/kernel_vm.c: the mappings of the kernel, in the page tables of Paging. `pd` is the
-- page directory of `kernel_vm`.
pub mod Kernel
pub mod Tests
use it_works_os.Base.{
  ℕ, ◌+◌, ◌-◌, ◌%◌, ◌^◌, Bool, true, false, not, Option, none, some, if◌then◌else◌, ◌==◌, ltb,
  bit_or,
}
use it_works_os.Bits.{bit}
use it_works_os.Kerror.{Kerror, ok, inval, is_err}
use it_works_os.Layout.{kernel_virt_offset}
use it_works_os.Paging.{
  Machine, vm_write, arch_vm_map, arch_vm_unmap, arch_vm_protect, arch_vm_space_attach_kernel,
  arch_vm_translate, arch_vm_space_init, arch_vm_kernel_prepare, arch_vm_space_load,
}

-- VM_READ, VM_EXEC and KERNEL_DIRECT_MAP_SIZE
abbrev pub vm_read : ℕ
vm_read = bit 0

abbrev pub vm_exec : ℕ
vm_exec = bit 2

abbrev pub kernel_direct_map_size : ℕ
kernel_direct_map_size = 0x30000000

-- UINTPTR_MAX is 2^32 - 1.
pub vm_kern_range_valid : ℕ → ℕ → Bool
vm_kern_range_valid virt size =
    if size == 0
    then false
    else if ltb virt kernel_virt_offset
    then false
    else if ltb (2 ^ 32 - 1 - virt) (size - 1)
    then false
    else true

pub vm_kern_map : ℕ → ℕ → ℕ → ℕ → ℕ → Machine → Kerror × Machine
vm_kern_map pd virt phys size flags m =
    if not (vm_kern_range_valid virt size)
    then (inval, m)
    else arch_vm_map pd virt phys size flags m

pub vm_kern_unmap : ℕ → ℕ → ℕ → Machine → Kerror × Machine
vm_kern_unmap pd virt size m =
    if not (vm_kern_range_valid virt size) then (inval, m) else arch_vm_unmap pd virt size m

pub vm_kern_protect : ℕ → ℕ → ℕ → ℕ → Machine → Kerror × Machine
vm_kern_protect pd virt size flags m =
    if not (vm_kern_range_valid virt size) then (inval, m) else arch_vm_protect pd virt size flags m

-- The space of a process, none for NULL.
pub vm_kern_attach : ℕ → Option ℕ → Machine → Kerror × Machine
vm_kern_attach pd none m = (inval, m)
vm_kern_attach pd (some vm) m = arch_vm_space_attach_kernel vm pd m

-- The flag is whether the pointer for the address is there.
pub vm_kern_translate : ℕ → ℕ → Bool → Machine → Kerror × Option ℕ
vm_kern_translate pd virt phys m =
    if not phys
    then (inval, none)
    else if not (vm_kern_range_valid virt 1)
    then (inval, none)
    else arch_vm_translate pd virt m

-- `KERR_TRY` of a call, and what follows it.
abbrev pub and_try : Kerror × Machine → (Machine → Kerror × Machine) → Kerror × Machine
and_try (e, m) next = if is_err e then (e, m) else next m

-- The addresses that the linker gives to the text and the read-only data, each with its end.
module _ (text_start text_end rodata_start rodata_end : ℕ) where
  -- What follows `arch_vm_space_init`, at the new directory.
  abbrev pub kernel_layout : ℕ → Machine → Kerror × Machine
  kernel_layout pd m = and_try (arch_vm_kernel_prepare pd m) λ m1.
      and_try
        (vm_kern_map pd kernel_virt_offset 0 kernel_direct_map_size (bit_or vm_read vm_write) m1)
        λ m2.
          and_try
            (vm_kern_protect pd text_start (text_end - text_start) (bit_or vm_read vm_exec) m2)
            λ m3.
              and_try (vm_kern_protect pd rodata_start (rodata_end - rodata_start) vm_read m3)
                λ m4. arch_vm_space_load pd m4

  abbrev pub init_space : Kerror × Option ℕ × Machine → Kerror × Option ℕ × Machine
  init_space (e, none, m) = (e, none, m)
  init_space (e, some pd, m) = let (e', m') = kernel_layout pd m in (e', some pd, m')

  -- The option is the directory of `kernel_vm`.
  pub vm_kern_init : Machine → Kerror × Option ℕ × Machine
  vm_kern_init m = init_space (arch_vm_space_init m)
