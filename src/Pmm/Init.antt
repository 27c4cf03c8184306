-- ===== src/Pmm/Init.antt =====
-- `pmm_init` of kernel/mm/pmm.c, with the memory map of kernel/include/boot/boot_info.h.
-- The linker's symbols `__kernel_start` and `__kernel_end` and the words that lie behind the
-- kernel image, where the bitmap is put, are parameters. The debug output is left out.
mod Loops
pub mod Map
mod Tests
use it_works_os.Base.{
  ℕ, zero, suc, ◌+◌, ◌-◌, ◌*◌, ◌/◌, ◌%◌, ◌^◌, not, Option, none, some, List, [], ◌∷◌, if◌then◌else◌,
  ◌==◌, ltb,
}
use it_works_os.Bits.Align.{align_up, align_down}
use it_works_os.Kerror.{Kerror, ok, inval}
use it_works_os.Bitmap
use it_works_os.Bitmap.{Bitmap}
use it_works_os.Bitmap.Range.{set_range, clear_range, count_loop}
use it_works_os.Pmm.{Pmm, frame_size, addr_to_frame}

-- `struct boot_mem_map_entry`
pub record Entry : Type 0 where
  pub base : ℕ
  pub length : ℕ
  pub type : ℕ
  pub attr : ℕ

-- `BOOT_TYPE_USABLE`
abbrev pub usable : ℕ
usable = 1

-- `map_ptr[i].base + map_ptr[i].length`
abbrev pub entry_end : Entry → ℕ
entry_end e = (e.base + e.length) % 2 ^ 64

-- The loop that finds `max_addr`.
pub max_end : List Entry → ℕ → ℕ
max_end [] m = m
max_end (e ∷ es) m =
    max_end es
      (if not (e.type == usable) then m else if ltb m (entry_end e) then entry_end e else m)

pub total_of : ℕ → ℕ
total_of max_addr = align_up 64 max_addr frame_size / frame_size % 2 ^ 32

-- The frames of a usable entry: from the first that starts in it up to the last that ends in it.
pub entry_start_frame : Entry → ℕ
entry_start_frame e = align_up 64 e.base frame_size / frame_size % 2 ^ 32

pub entry_end_frame : Entry → ℕ
entry_end_frame e = align_down 64 (entry_end e) frame_size / frame_size % 2 ^ 32

-- The loop that frees usable memory.
pub free_entries : List Entry → Bitmap → Bitmap
free_entries [] bm = bm
free_entries (e ∷ es) bm = free_entries es (
    if not (e.type == usable)
    then bm
    else clear_range bm (entry_start_frame e) (entry_end_frame e - entry_start_frame e))

-- `pmm_force_reserve_range`, with `left` rounds to go
pub force_reserve : ℕ → ℕ → ℕ → Bitmap → Bitmap
force_reserve total start zero bm = bm
force_reserve total start (suc left) bm =
    force_reserve total (start + 1) left
      (if ltb (start % 2 ^ 32) total then Bitmap.set bm (start % 2 ^ 32) else bm)

-- `KERNEL_VIRT_BASE`
abbrev pub kernel_virt_base : ℕ
kernel_virt_base = 0xC0000000

-- The physical address of a linker symbol.
pub phys_of : ℕ → ℕ
phys_of symbol = (symbol + 2 ^ 64 - kernel_virt_base) % 2 ^ 64

-- The frames that the bytes from `lo` up to `hi` touch become reserved.
pub reserve_bytes : ℕ → ℕ → ℕ → Bitmap → Bitmap
reserve_bytes total lo hi bm =
    let start = addr_to_frame (align_down 64 lo frame_size) in
    let end = addr_to_frame (align_up 64 hi frame_size) in
    force_reserve total start ((end + 2 ^ 32 - start) % 2 ^ 32) bm

module _ (kernel_start kernel_end : ℕ) (buffer : List ℕ) where
  -- The bitmap that `pmm_init` leaves for `total` frames.
  pub init_bitmap : Bitmap → List Entry → ℕ → Bitmap
  init_bitmap bm entries total =
      let bitmap_bytes = (total + 7) % 2 ^ 32 / 8 in
      let kernel_end_phys = phys_of kernel_end in
      reserve_bytes total kernel_end_phys ((kernel_end_phys + bitmap_bytes) % 2 ^ 64) (
        reserve_bytes total (phys_of kernel_start) kernel_end_phys (
          force_reserve total 0 (1024 * 1024 / frame_size)
            (free_entries entries (set_range (Bitmap.init bm buffer total) 0 total))))

  set_up : Pmm → List Entry → Pmm
  set_up pmm entries =
      let max_addr = max_end entries 0 in
      let total = total_of max_addr in
      let bm = init_bitmap pmm.bm entries total in
      record {
        bm = bm;
        max_addr = max_addr;
        total_frames = total;
        free_frames = count_loop bm total 0 0;
      }

  -- `none` is a null `map_ptr`, and `count` the length of the list.
  pub init : Pmm → Option (List Entry) → Kerror × Pmm
  init pmm none = (inval, pmm)
  init pmm (some []) = (inval, pmm)
  init pmm (some (e ∷ es)) = (ok, set_up pmm (e ∷ es))
