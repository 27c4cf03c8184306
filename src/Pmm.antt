-- ===== src/Pmm.antt =====
-- kernel/mm/pmm.c: the physical memory manager, over the bitmap. The file's static variables are
-- the record `Pmm`; each function takes it and returns its status with the new one. An address is
-- a `paddr_t` of 64 bits, a frame number a `uint32_t`, a number of pages a `size_t`.
pub mod Frames
pub mod Fit
pub mod Guard
pub mod Free
pub mod Alloc
pub mod Cycle
mod Tests
pub mod Init
use it_works_os.Base.{
  ℕ, zero, suc, ◌+◌, ◌-◌, ◌*◌, ◌/◌, ◌%◌, ◌^◌, Bool, true, false, not, ◌||◌, Option, none, some,
  if◌then◌else◌, ◌==◌, ltb, leb,
}
use it_works_os.Bits.Align.{align_up, align_test}
use it_works_os.Kerror.{Kerror, ok, inval, nomem, busy, is_err}
use it_works_os.Bitmap.{Bitmap}
use it_works_os.Bitmap.Range.{set_range, clear_range, all_set, all_clear, scan}

pub record Pmm : Type 0 where
  pub bm : Bitmap
  pub max_addr : ℕ
  pub total_frames : ℕ
  pub free_frames : ℕ

abbrev pub frame_size : ℕ
frame_size = 4096

-- `pmm_addr_to_frame`
pub addr_to_frame : ℕ → ℕ
addr_to_frame addr = addr / frame_size % 2 ^ 32

-- `pmm_frame_to_addr`
pub frame_to_addr : ℕ → ℕ
frame_to_addr frame = frame * frame_size % 2 ^ 64

-- `pmm_validate_range`
pub validate_range : Pmm → ℕ → ℕ → Kerror
validate_range pmm first pages =
    if pages == 0
    then inval
    else if leb pmm.total_frames first
    then inval
    else if ltb (pmm.total_frames - first) pages
    then inval
    else ok

-- The bits of `pages` frames from `first` on become allocated, or free.
pub take_frames : Pmm → ℕ → ℕ → Pmm
take_frames pmm first pages = record pmm {
  bm = set_range pmm.bm first pages;
  free_frames = (pmm.free_frames + 2 ^ 32 - pages) % 2 ^ 32;
}

pub give_frames : Pmm → ℕ → ℕ → Pmm
give_frames pmm first pages = record pmm {
  bm = clear_range pmm.bm first pages;
  free_frames = (pmm.free_frames + pages) % 2 ^ 32;
}

-- `pmm_reserve`
pub reserve : Pmm → ℕ → ℕ → Kerror × Pmm
reserve pmm addr pages =
    if pages == 0
    then (inval, pmm)
    else if not (align_test addr frame_size)
    then (inval, pmm)
    else if is_err (validate_range pmm (addr_to_frame addr) pages)
    then (inval, pmm)
    else if not (all_clear pmm.bm (addr_to_frame addr) pages)
    then (busy, pmm)
    else (ok, take_frames pmm (addr_to_frame addr) pages)

-- `pmm_unreserve`
pub unreserve : Pmm → ℕ → ℕ → Kerror × Pmm
unreserve pmm addr pages =
    if pages == 0
    then (inval, pmm)
    else if not (align_test addr frame_size)
    then (inval, pmm)
    else if is_err (validate_range pmm (addr_to_frame addr) pages)
    then (inval, pmm)
    else if not (all_set pmm.bm (addr_to_frame addr) pages)
    then (inval, pmm)
    else (ok, give_frames pmm (addr_to_frame addr) pages)

-- `pmm_free`: the same steps as `pmm_unreserve`, written again in the source.
pub free : Pmm → ℕ → ℕ → Kerror × Pmm
free pmm addr pages =
    if pages == 0
    then (inval, pmm)
    else if not (align_test addr frame_size)
    then (inval, pmm)
    else if is_err (validate_range pmm (addr_to_frame addr) pages)
    then (inval, pmm)
    else if not (all_set pmm.bm (addr_to_frame addr) pages)
    then (inval, pmm)
    else (ok, give_frames pmm (addr_to_frame addr) pages)

-- `enum pmm_policy`
pub data Policy : Type 0 where
  strict fallback : Policy

-- The frames that `pmm_alloc` searches: 0 stands for no bound.
pub start_frame : ℕ → ℕ
start_frame lo = if lo == 0 then 0 else addr_to_frame (align_up 64 lo frame_size)

pub max_frame : Pmm → ℕ → ℕ
max_frame pmm hi =
    let m = if hi == 0 then pmm.total_frames else addr_to_frame hi in
    if ltb pmm.total_frames m then pmm.total_frames else m

-- The loop of `pmm_alloc`, under its test `start_frame < max_frame`.
pub search : Pmm → ℕ → ℕ → ℕ → Option ℕ
search pmm lo hi pages =
    if ltb (start_frame lo) (max_frame pmm hi)
    then scan pmm.bm pages (max_frame pmm hi - start_frame lo) (start_frame lo) 0
    else none

-- What follows a search: the frames are taken and their address goes through `out`, or the
-- function goes on as `otherwise` says.
abbrev pub finish : Pmm → ℕ → Option ℕ → Kerror × Option ℕ × Pmm → Kerror × Option ℕ × Pmm
finish pmm pages (some first) otherwise =
    (ok, some (frame_to_addr first), take_frames pmm first pages)
finish pmm pages none otherwise = otherwise

-- `pmm_alloc` with PMM_POLICY_STRICT. `out` tells whether the pointer `out` is not null, and the
-- option is what is written through it.
pub alloc_strict : Pmm → ℕ → ℕ → ℕ → Bool → Kerror × Option ℕ × Pmm
alloc_strict pmm lo hi pages out =
    if not out || (pages == 0)
    then (inval, none, pmm)
    else finish pmm pages (search pmm lo hi pages) (nomem, none, pmm)

-- `pmm_alloc`: the fallback is one more call, strict and with no bounds.
pub alloc : Pmm → ℕ → ℕ → ℕ → Policy → Bool → Kerror × Option ℕ × Pmm
alloc pmm lo hi pages strict out = alloc_strict pmm lo hi pages out
alloc pmm lo hi pages fallback out =
    if not out || (pages == 0)
    then (inval, none, pmm)
    else finish pmm pages (search pmm lo hi pages) (alloc_strict pmm 0 0 pages out)
