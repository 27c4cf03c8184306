-- ===== src/Lib.antt =====
-- The core of the ItWorksOS kernel: the managers of its memory, interrupts, devices and processes,
-- the drivers of its timer, screen and interrupt controller, and the library that these stand on.
--
-- The parts, and how they interact:
-- - Bits.antt and its children: kernel/include/base/bit.h and kernel/include/base/align.h. A word is
--   a number of ℕ, and its width is written out where the source may wrap: `% 2 ^ 32` for uint32_t,
--   size_t and vaddr_t, `% 2 ^ 64` for uint64_t and paddr_t.
-- - Kerror.antt: kernel/include/kernel/error.h. KERR_TRY is a test of the code.
-- - Bitmap.antt: kernel/klib/bitmap.c over a list of 32-bit words. Bitmap/Range.antt has the loops
--   over consecutive bits, which kernel/mm/pmm.c and kernel/irq/irq.c both write out.
-- - Pmm.antt: kernel/mm/pmm.c, the physical frames, one bit each (`pmm_alloc` is `alloc`, `pmm_free`
--   is `free`, and so on). Pmm/Fit.antt has the search by frame numbers, Pmm/Alloc.antt by addresses. Pmm/Init.antt: `pmm_init`, from the memory map of
--   kernel/include/boot/boot_info.h.
-- - Layout.antt: kernel/include/mm/layout.h, the window on low memory.
-- - Kheap.antt: kernel/mm/kheap.c over the frames of Pmm.antt. The memory of the heap is a function
--   from addresses for each field of a header and for the footer; Kheap/Blocks.antt is the list of
--   blocks that those fields describe, and Kheap/Heap.antt the invariant. A header and a footer at
--   addresses of different blocks are taken not to overlap.
-- - Paging.antt: kernel/arch/x86/mm.c, the page tables of an address space in the pages of low memory.
--   Paging/Space.antt has the invariant: directory and tables are different pages in use.
-- - KernelVm.antt: kernel/mm/kernel_vm.c over Paging.antt. The addresses that the linker and the
--   window of the page tables give are parameters.
-- - KernelStack.antt: kernel/mm/kernel_stack.c, the slots of the kernel stacks. The pages that it asks
--   kernel/mm/kernel_vm.c for are the record `Pages` of functions on a state, of which nothing is assumed.
-- - Vmm.antt: kernel/mm/vmm.c, the areas of an address space. What it calls, the page tables of
--   kernel/arch/x86/mm.c, kernel/mm/kernel_vm.c and kernel/mm/kheap.c, is the record `Layer` of
--   functions on a state, of which nothing is assumed.
-- - Irq.antt: kernel/irq/irq.c, kernel/irq/desc.c and kernel/irq/map.c. A controller (`IrqChip`) and
--   a handler are functions on a state of which nothing is assumed; they do not change the tables
--   of the interrupts themselves.
-- - I8259.antt: kernel/drivers/irqchip/i8259.c, a chip for Irq.antt. The ports of Port.antt are
--   functions on a state; I8259/Masks.antt assumes of them what the data sheet says of the two mask registers.
-- - Console.antt and VgaText.antt: kernel/console/console.c, and kernel/drivers/video/vga/vga_text.c,
--   which fills the record of functions of a console. VgaText/Terminal.antt is the terminal of rows and
--   columns that the flat buffer is compared with.
-- - I8254.antt: kernel/drivers/timer/i8254.c, the timer, over the interrupts of Irq.antt, and
--   kernel/time/timer_device.c.
-- - Ringbuf.antt: kernel/klib/ringbuf.c. Ringbuf/Fifo.antt is the queue that it implements.
-- - Syslog.antt: kernel/log/syslog.c, the log, a client of the ring.
-- - Strings.antt: kernel/klib/string.c, on lists of bytes without the final NUL.
-- - Memory.antt: kernel/klib/memory.c, on a memory of bytes by address.
-- - Conv.antt: kernel/klib/conv.c, numbers to strings and back. Its loop of divisions runs on a fuel of
--   32, the number of digits of a word in base 2, which has the most. A signed overflow of `conv_atoi`,
--   which C leaves undefined, is a result of none.
-- - Pid.antt: kernel/process/pid.c, the process numbers.
-- - Process.antt: process_create of kernel/process/process.c over Pid.antt and Kheap.antt. What it asks
--   kernel/mm/vmm.c and kernel/mm/kernel_stack.c for is the record `Spaces` of functions on a state.
-- - Dlist.antt: kernel/include/klib/list.h, the lists linked through their nodes, on a memory of `next`
--   and `prev` by node. Dlist/Chain.antt says which nodes such a memory links, and Dlist/Walk.antt has the
--   loop of list_for_each_safe on fuel: more than the number of nodes is enough.
-- - Device.antt: kernel/device/*.c, devices, drivers, buses and resources. The lists of a bus are
--   lists of names, and a match or a probe is a function on a state, of which nothing is assumed.
-- - Iwbf.antt: kernel/format/iwbf.c, the headers of an executable, read from a memory of bytes by address through
--   Endian.antt, kernel/include/klib/endian.h.
-- - Printf.antt: kernel/klib/printf.c on a list of arguments. Its loop over the digits runs on a fuel
--   of 32, enough for a word of 32 bits in every base from 2.
-- - Gdt.antt: kernel/arch/x86/cpu/gdt.c and tss.c, and the gates of kernel/arch/x86/interrupt/idt.c, as
--   tables of encoded entries.
--
-- Static variables are a record that each function takes and returns. A function that writes through
-- a pointer returns an option for it, and the flag of a null pointer is an argument where the source
-- tests it for a result. Every other loop is a structural recursion on its number of rounds or on the
-- list that it walks.
--
-- Not modelled: assembly and processor registers, and the set-up of the processor around them (loading
-- the descriptor tables, cpuid, exceptions); the boot loader, the order of the initialisation
-- and its calls, printk and panic, the probes of the screen and of the timer, the loading and the start
-- of a process, the user program, tools/mkimage; nor, in the parts above, debug output, the names of
-- interrupt maps, and the tests for null pointers to the objects themselves.
pub mod Base
pub mod Bits
pub mod Bitmap
pub mod Kerror
pub mod Pmm
pub mod Irq
pub mod Ringbuf
pub mod Pid
pub mod Vmm
pub mod Port
pub mod I8259
pub mod Syslog
pub mod Strings
pub mod Layout
pub mod Kheap
pub mod Paging
pub mod Console
pub mod Dlist
pub mod Endian
pub mod Iwbf
pub mod Printf
pub mod KernelVm
pub mod KernelStack
pub mod Process
pub mod Gdt
pub mod Device
pub mod VgaText
pub mod I8254
pub mod Conv
pub mod Memory
