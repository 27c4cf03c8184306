-- ===== src/KernelVm/Tests.antt =====
-- An instance of the theorem about kernel/mm/kernel_vm.c.
use it_works_os.Base.{arith}
use it_works_os.KernelVm.{vm_kern_map, vm_kern_unmap, vm_kern_protect}
use it_works_os.KernelVm.Kernel.{KernelOutcome, vm_kern_lem}
use it_works_os.Paging.Tests.{machine, machine-IsSpace}

vm_kern_lem_example :
    KernelOutcome 8192 0xF0000000 4096 machine (vm_kern_map 8192 0xF0000000 0x5000 4096 3 machine)
    × KernelOutcome 8192 0xF0000000 4096 machine (vm_kern_unmap 8192 0xF0000000 4096 machine)
    × KernelOutcome 8192 0xF0000000 4096 machine (vm_kern_protect 8192 0xF0000000 4096 3 machine)
vm_kern_lem_example =
    vm_kern_lem 0xF0000000 4096 machine-IsSpace (omega arith) 0x5000 3 (omega arith)
