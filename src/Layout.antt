-- ===== src/Layout.antt =====
-- kernel/include/mm/layout.h: where physical memory is seen in the kernel's addresses. `VIRT_TO_PHYS`
-- is used by no code of the kernel.
use it_works_os.Base.{ℕ, ◌+◌, ◌*◌, ◌%◌, ◌^◌}

-- `KERNEL_VIRT_OFFSET`
abbrev pub kernel_virt_offset : ℕ
kernel_virt_offset = 0xC0000000

-- `KERNEL_LOWMEM_LIMIT`
abbrev pub kernel_lowmem_limit : ℕ
kernel_lowmem_limit = 768 * 1024 * 1024

-- `PHYS_TO_VIRT`, to a 32-bit address
abbrev pub phys_to_virt : ℕ → ℕ
phys_to_virt phys = (phys + kernel_virt_offset) % 2 ^ 32
