-- ===== src/KernelStack.antt =====
-- Model of kernel/mm/kernel_stack.c: the slots of the kernel's stacks. The frames and the mappings of
-- the kernel are reached through `Pages`, the functions of kernel/mm/pmm.c and kernel_vm.c on a state
-- `W`, which deliver a frame or an address beside their code.
pub mod Mapping
pub mod Slots
pub mod Tests
use it_works_os.Base.{
  ℕ, zero, suc, ◌+◌, ◌-◌, ◌*◌, ◌/◌, ◌%◌, ◌^◌, Bool, true, false, not, ◌||◌, Option, none, some, [],
  ◌∷◌, if◌then◌else◌, ◌==◌, bit_or,
}
use it_works_os.Bitmap.{Bitmap, static_init, find_zero, set, clear}
use it_works_os.Bits.{bit}
use it_works_os.Kerror.{Kerror, ok, inval, exists, nospc, noent, is_err}

-- PMM_ALLOC_ANY of one page, vm_kern_map, vm_kern_translate, vm_kern_unmap and pmm_free of one page
pub record Pages (W : Type 0) : Type 0 where
  pub alloc_page : W → Kerror × ℕ × W
  pub kern_map : ℕ → ℕ → ℕ → ℕ → W → Kerror × W
  pub kern_translate : ℕ → W → Kerror × ℕ
  pub kern_unmap : ℕ → ℕ → W → Kerror × W
  pub free_page : ℕ → W → Kerror × W

pub record KernelStack : Type 0 where
  pub base : ℕ
  pub stack_pointer : ℕ
  pub size : ℕ

-- KERNEL_STACK_MAX, KERNEL_STACK_PAGES, KERNEL_STACK_BASE and arch_vm_page_size()
abbrev pub kernel_stack_max : ℕ
kernel_stack_max = 64

abbrev pub kernel_stack_pages : ℕ
kernel_stack_pages = 4

abbrev pub kernel_stack_base : ℕ
kernel_stack_base = 0xF0000000

abbrev pub page_size : ℕ
page_size = 4096

-- VM_GROWSDOWN | VM_READ | VM_WRITE
abbrev pub stack_flags : ℕ
stack_flags = bit_or (bit_or (bit 4) (bit 0)) (bit 1)

-- `kernel_stack_bm`, over zeroed words
pub kernel_stack_bm : Bitmap
kernel_stack_bm = static_init (0 ∷ 0 ∷ []) kernel_stack_max

module _ {W : Type 0} (pages : Pages W) where
  -- The loop of kstack_alloc, `n` pages from page `i` on.
  pub map_pages : ℕ → ℕ → ℕ → W → Kerror × W
  map_pages base zero i w = (ok, w)
  map_pages base (suc n) i w =
      let (e, frame, w1) = pages.alloc_page w in
      let (e', w2) =
        pages.kern_map ((base + i * page_size) % 2 ^ 32) frame page_size stack_flags w1 in
      let rest = map_pages base n (i + 1) w2 in
      if is_err e then (e, w1) else if is_err e' then (e', w2) else rest

  -- The stack, none for NULL, and the bitmap after the loop.
  abbrev pub with_pages :
      ℕ → ℕ → KernelStack → Bitmap → Kerror × W → Kerror × Option KernelStack × Bitmap × W
  with_pages pos base stack bm (e, w) = if is_err e then (e, some stack, bm, w) else (
    ok,
    some (record stack { base = base; size = kernel_stack_pages * page_size }),
    set bm pos,
    w,
  )

  abbrev pub at_slot :
      Option ℕ → KernelStack → Bitmap → W → Kerror × Option KernelStack × Bitmap × W
  at_slot none stack bm w = (nospc, some stack, bm, w)
  at_slot (some pos) stack bm w =
      let base = (kernel_stack_base + kernel_stack_pages * pos * page_size) % 2 ^ 32 in
      with_pages pos base stack bm (map_pages base kernel_stack_pages 0 w)

  pub kstack_alloc : Option KernelStack → Bitmap → W → Kerror × Option KernelStack × Bitmap × W
  kstack_alloc none bm w = (inval, none, bm, w)
  kstack_alloc (some stack) bm w =
      if not (stack.base == 0) || not (stack.size == 0)
      then (exists, some stack, bm, w)
      else at_slot (find_zero bm) stack bm w

  -- The loop of kstack_free.
  pub unmap_pages : ℕ → ℕ → ℕ → W → Kerror × W
  unmap_pages base zero i w = (ok, w)
  unmap_pages base (suc n) i w =
      let virt = (base + i * page_size) % 2 ^ 32 in
      let (e, phys) = pages.kern_translate virt w in
      let (e', w1) = pages.kern_unmap virt page_size w in
      let (e'', w2) = pages.free_page phys w1 in
      let rest = unmap_pages base n (i + 1) w2 in
      if is_err e
      then (e, w)
      else if is_err e'
      then (e', w1)
      else if is_err e''
      then (e'', w2)
      else rest

  abbrev pub without_pages :
      ℕ → KernelStack → Bitmap → Kerror × W → Kerror × Option KernelStack × Bitmap × W
  without_pages pos stack bm (e, w) =
      if is_err e
      then (e, some stack, bm, w)
      else (ok, some (record { base = 0; stack_pointer = 0; size = 0 }), clear bm pos, w)

  pub kstack_free : Option KernelStack → Bitmap → W → Kerror × Option KernelStack × Bitmap × W
  kstack_free none bm w = (inval, none, bm, w)
  kstack_free (some stack) bm w =
      let pos =
        (stack.base + 2 ^ 32 - kernel_stack_base) % 2 ^ 32 / (kernel_stack_pages * page_size) in
      if (stack.base == 0) || (stack.size == 0)
      then (noent, some stack, bm, w)
      else without_pages pos stack bm (unmap_pages stack.base kernel_stack_pages 0 w)
