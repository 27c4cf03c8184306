-- ===== src/Paging.antt =====
-- kernel/arch/x86/mm.c: the page tables of an address space. Memory is a function from the kernel's
-- addresses of 32-bit words, where a page of low memory is seen through PHYS_TO_VIRT. The assembly of
-- `x86_invlpg` and the write of CR3 are kept as a list of addresses and a register. A
-- `struct arch_vm_space` is the physical address of its page directory.
pub mod Pages
pub mod Space
pub mod Mapped
pub mod Table
pub mod Map
pub mod Changed
pub mod Change
pub mod Cycle
pub mod Attach
pub mod Tests
use it_works_os.Base.{
  ℕ, zero, suc, ◌+◌, ◌-◌, ◌*◌, ◌/◌, ◌%◌, ◌^◌, Bool, true, false, not, ◌&&◌, ◌||◌, ◌⊎◌, inl, inr,
  Option, none, some, List, ◌∷◌, bit_and, bit_or, if◌then◌else◌, ◌==◌, ltb, leb,
}
use it_works_os.Bits.{bit, mask_test}
use it_works_os.Bits.Align.{align_test}
use it_works_os.Layout.{phys_to_virt, kernel_lowmem_limit}
use it_works_os.Pmm.{Pmm, strict, alloc, free}
use it_works_os.Kerror.{Kerror, ok, inval, nomem, noent, exists, nosup, is_err}

pub record Machine : Type 0 where
  pub memory : ℕ → ℕ
  pub pmm : Pmm
  pub flushed : List ℕ
  pub cr3 : ℕ

-- X86_PAGE_SIZE, X86_PDE_COUNT, X86_KERNEL_PDE_BASE and X86_PAGE_MASK
abbrev pub x86_page_size : ℕ
x86_page_size = 4096

abbrev pub pde_count : ℕ
pde_count = 1024

abbrev pub kernel_pde_base : ℕ
kernel_pde_base = 768

abbrev pub page_mask : ℕ
page_mask = 0xFFFFF000

-- X86_PDE_PRESENT and X86_PTE_PRESENT, and X86_PDE_PAGE_SIZE, tested
abbrev pub is_present : ℕ → Bool
is_present entry = mask_test entry (bit 0)

abbrev pub is_large : ℕ → Bool
is_large entry = mask_test entry (bit 7)

-- VM_WRITE and VM_USER
abbrev pub vm_write : ℕ
vm_write = bit 1

abbrev pub vm_user : ℕ
vm_user = bit 3

pub arch_vm_page_size : ℕ
arch_vm_page_size = x86_page_size

pub x86_vm_flags_to_pte : ℕ → ℕ
x86_vm_flags_to_pte flags =
    let pte_flags = bit 0 in
    let writable = if mask_test flags vm_write then bit_or pte_flags (bit 1) else pte_flags in
    if mask_test flags vm_user then bit_or writable (bit 2) else writable

pub x86_vm_flags_to_pde : ℕ → ℕ
x86_vm_flags_to_pde flags =
    let pde_flags = bit_or (bit 0) (bit 1) in
    if mask_test flags vm_user then bit_or pde_flags (bit 2) else pde_flags

-- Entry `i` of the table at a physical address, and a table read and written.
abbrev pub entry_at : ℕ → ℕ → ℕ
entry_at table i = phys_to_virt table + 4 * i

abbrev pub read_entry : Machine → ℕ → ℕ → ℕ
read_entry m table i = m.memory (entry_at table i)

pub write_word : (ℕ → ℕ) → ℕ → ℕ → ℕ → ℕ
write_word memory a v x = if x == a then v else memory x

abbrev pub write_entry : Machine → ℕ → ℕ → ℕ → Machine
write_entry m table i v = record m { memory = write_word m.memory (entry_at table i) v }

-- `memset(pt, 0, X86_PAGE_SIZE)`
pub clear_words : (ℕ → ℕ) → ℕ → ℕ → ℕ
clear_words memory a x = if leb a x && ltb x (a + x86_page_size) then 0 else memory x

abbrev pub clear_page : ℕ → Machine → Machine
clear_page table m = record m { memory = clear_words m.memory (phys_to_virt table) }

abbrev pub x86_invlpg : ℕ → Machine → Machine
x86_invlpg va m = record m { flushed = va ∷ m.flushed }

abbrev pub pde_index : ℕ → ℕ
pde_index va = va / 2 ^ 22

abbrev pub pte_index : ℕ → ℕ
pte_index va = bit_and (va / 2 ^ 12) 0x3FF

-- `PMM_ALLOC_LOWMEM(1, &phys)`
abbrev pub alloc_page : Pmm → Kerror × Option ℕ × Pmm
alloc_page pmm = alloc pmm 0 kernel_lowmem_limit 1 strict true

-- `arch_vm_space_init`, at the page that is allocated; the option is the new directory.
abbrev pub space_at : Machine → Kerror × Option ℕ × Pmm → Kerror × Option ℕ × Machine
space_at m (e, none, pmm) = (e, none, record m { pmm = pmm })
space_at m (e, some pd_phys, pmm) = (ok, some pd_phys, clear_page pd_phys (record m { pmm = pmm }))

pub arch_vm_space_init : Machine → Kerror × Option ℕ × Machine
arch_vm_space_init m = space_at m (alloc_page m.pmm)

-- A new table under entry `i` of a directory, with the flags of the entry.
abbrev pub table_at : ℕ → ℕ → ℕ → Machine → Kerror × Option ℕ × Pmm → Kerror × Machine
table_at pd i flags m (e, none, pmm) = (e, record m { pmm = pmm })
table_at pd i flags m (e, some pt_phys, pmm) = (
  ok,
  write_entry (clear_page pt_phys (record m { pmm = pmm })) pd i (bit_or pt_phys flags % 2 ^ 32),
)

pub new_table : ℕ → ℕ → ℕ → Machine → Kerror × Machine
new_table pd i flags m = table_at pd i flags m (alloc_page m.pmm)

-- The loop of `arch_vm_kernel_prepare`, `n` rounds from entry `i` on.
pub prepare_from : ℕ → ℕ → ℕ → Machine → Kerror × Machine
prepare_from pd zero i m = (ok, m)
prepare_from pd (suc n) i m =
    let (e, m') = new_table pd i (bit_or (bit 0) (bit 1)) m in
    let rest = prepare_from pd n (i + 1) m' in if is_err e then (e, m') else rest

pub arch_vm_kernel_prepare : ℕ → Machine → Kerror × Machine
arch_vm_kernel_prepare pd m = prepare_from pd (pde_count - kernel_pde_base) kernel_pde_base m

-- The loop of `arch_vm_space_destroy`.
pub free_tables : ℕ → ℕ → ℕ → Machine → Kerror × Machine
free_tables pd zero i m = (ok, m)
free_tables pd (suc n) i m =
    let pde = read_entry m pd i in
    let (e, pmm) = free m.pmm (bit_and pde page_mask) 1 in
    let skipped = free_tables pd n (i + 1) m in
    let freed = free_tables pd n (i + 1) (record m { pmm = pmm }) in
    if not (is_present pde)
    then skipped
    else if is_large pde
    then skipped
    else if is_err e
    then (e, record m { pmm = pmm })
    else freed

-- What follows the loop, at what it returns; `pd_phys` of the space is returned too.
abbrev pub free_directory : ℕ → Kerror × Machine → Kerror × ℕ × Machine
free_directory pd (e, m) =
    let (e', pmm) = free m.pmm pd 1 in
    if is_err e
    then (e, pd, m)
    else if is_err e'
    then (e', pd, record m { pmm = pmm })
    else (ok, 0, record m { pmm = pmm })

pub arch_vm_space_destroy : ℕ → Machine → Kerror × ℕ × Machine
arch_vm_space_destroy pd m = free_directory pd (free_tables pd kernel_pde_base 0 m)

-- The loop of `arch_vm_space_attach_kernel`.
pub copy_entries : ℕ → ℕ → ℕ → ℕ → Machine → Machine
copy_entries pd kernel_pd zero i m = m
copy_entries pd kernel_pd (suc n) i m =
    copy_entries pd kernel_pd n (i + 1) (write_entry m pd i (read_entry m kernel_pd i))

pub arch_vm_space_attach_kernel : ℕ → ℕ → Machine → Kerror × Machine
arch_vm_space_attach_kernel pd kernel_pd m =
    (ok, copy_entries pd kernel_pd (pde_count - kernel_pde_base) kernel_pde_base m)

-- The table of a page: the one of its directory entry, or a new one.
pub table_for : ℕ → ℕ → ℕ → Machine → Kerror × Machine
table_for pd va flags m =
    let pde = read_entry m pd (pde_index va) in
    if not (is_present pde)
    then new_table pd (pde_index va) (x86_vm_flags_to_pde flags) m
    else if is_large pde
    then (nosup, m)
    else (ok, m)

-- The entry of a page is written, in the table that the directory has for it.
abbrev pub set_entry : ℕ → ℕ → ℕ → ℕ → Kerror × Machine → Kerror × Machine
set_entry pd va pa flags (e, m) =
    let pt = bit_and (read_entry m pd (pde_index va)) page_mask in
    if is_err e
    then (e, m)
    else if is_present (read_entry m pt (pte_index va))
    then (exists, m)
    else (
      ok,
      x86_invlpg va (
          write_entry m pt (pte_index va)
            (bit_or (bit_and pa page_mask) (x86_vm_flags_to_pte flags))),
    )

-- One round of `arch_vm_map`.
pub map_page : ℕ → ℕ → ℕ → ℕ → Machine → Kerror × Machine
map_page pd va pa flags m = set_entry pd va pa flags (table_for pd va flags m)

-- The loop of `arch_vm_map`, `n` pages from the offset on.
pub map_range : ℕ → ℕ → ℕ → ℕ → ℕ → ℕ → Machine → Kerror × Machine
map_range pd virt phys flags zero off m = (ok, m)
map_range pd virt phys flags (suc n) off m =
    let (e, m') = map_page pd ((virt + off) % 2 ^ 32) ((phys + off) % 2 ^ 64) flags m in
    let rest = map_range pd virt phys flags n (off + x86_page_size) m' in
    if is_err e then (e, m') else rest

pub arch_vm_map : ℕ → ℕ → ℕ → ℕ → ℕ → Machine → Kerror × Machine
arch_vm_map pd virt phys size flags m =
    if size == 0
    then (inval, m)
    else if not (align_test virt x86_page_size)
        || not (align_test phys x86_page_size)
        || not (align_test size x86_page_size)
    then (inval, m)
    else map_range pd virt phys flags (size / x86_page_size) 0 m

-- The table and the entry of a page, as `arch_vm_unmap`, `arch_vm_protect` and `arch_vm_translate` find them.
pub walk : ℕ → ℕ → Machine → Kerror ⊎ (ℕ × ℕ)
walk pd va m =
    let pde = read_entry m pd (pde_index va) in
    let pt = bit_and pde page_mask in
    let pte = read_entry m pt (pte_index va) in
    if not (is_present pde)
    then inl noent
    else if is_large pde
    then inl nosup
    else if not (is_present pte)
    then inl noent
    else inr (pt, pte)

-- One round of `arch_vm_unmap`, at what is found.
abbrev pub unmap_page : ℕ → Machine → Kerror ⊎ (ℕ × ℕ) → Kerror × Machine
unmap_page va m (inl e) = (e, m)
unmap_page va m (inr (pt, pte)) = (ok, x86_invlpg va (write_entry m pt (pte_index va) 0))

pub unmap_range : ℕ → ℕ → ℕ → ℕ → Machine → Kerror × Machine
unmap_range pd virt zero off m = (ok, m)
unmap_range pd virt (suc n) off m =
    let va = (virt + off) % 2 ^ 32 in
    let (e, m') = unmap_page va m (walk pd va m) in
    let rest = unmap_range pd virt n (off + x86_page_size) m' in if is_err e then (e, m') else rest

pub arch_vm_unmap : ℕ → ℕ → ℕ → Machine → Kerror × Machine
arch_vm_unmap pd virt size m =
    if size == 0
    then (inval, m)
    else if not (align_test virt x86_page_size) || not (align_test size x86_page_size)
    then (inval, m)
    else unmap_range pd virt (size / x86_page_size) 0 m

-- One round of `arch_vm_protect`, at what is found.
abbrev pub protect_page : ℕ → ℕ → Machine → Kerror ⊎ (ℕ × ℕ) → Kerror × Machine
protect_page va flags m (inl e) = (e, m)
protect_page va flags m (inr (pt, pte)) = (
  ok,
  x86_invlpg va (
      write_entry m pt (pte_index va) (bit_or (bit_and pte page_mask) (x86_vm_flags_to_pte flags))),
)

pub protect_range : ℕ → ℕ → ℕ → ℕ → ℕ → Machine → Kerror × Machine
protect_range pd virt flags zero off m = (ok, m)
protect_range pd virt flags (suc n) off m =
    let va = (virt + off) % 2 ^ 32 in
    let (e, m') = protect_page va flags m (walk pd va m) in
    let rest = protect_range pd virt flags n (off + x86_page_size) m' in
    if is_err e then (e, m') else rest

pub arch_vm_protect : ℕ → ℕ → ℕ → ℕ → Machine → Kerror × Machine
arch_vm_protect pd virt size flags m =
    if size == 0
    then (inval, m)
    else if not (align_test virt x86_page_size) || not (align_test size x86_page_size)
    then (inval, m)
    else protect_range pd virt flags (size / x86_page_size) 0 m

pub arch_vm_space_load : ℕ → Machine → Kerror × Machine
arch_vm_space_load pd m = (ok, record m { cr3 = pd % 2 ^ 32 })

-- `arch_vm_translate`: the option is what is written through `phys`.
abbrev pub translate_at : ℕ → Kerror ⊎ (ℕ × ℕ) → Kerror × Option ℕ
translate_at virt (inl e) = (e, none)
translate_at virt (inr (pt, pte)) =
    (ok, some (bit_or (bit_and pte page_mask) (bit_and virt (x86_page_size - 1))))

pub arch_vm_translate : ℕ → ℕ → Machine → Kerror × Option ℕ
arch_vm_translate pd virt m = translate_at virt (walk pd virt m)
