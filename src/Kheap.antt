-- ===== src/Kheap.antt =====
-- kernel/mm/kheap.c: the kernel's allocator of blocks with a header and a footer. The memory of the
-- heap is given by field: the `size` and the `flags` of the header at an address, and the `size` of
-- the footer at an address. The free list is the list of the addresses of its headers, in order.
pub mod Blocks
pub mod Heap
pub mod Take
pub mod Alloc
pub mod Merge
pub mod Free
pub mod Cycle
pub mod Tests
use it_works_os.Base.{
  ℕ, ◌+◌, ◌-◌, ◌*◌, ◌%◌, ◌^◌, Bool, true, false, not, ◌||◌, ◌⊎◌, inl, inr, Option, none, some, List,
  [], ◌∷◌, ◌++◌, if◌then◌else◌, ◌==◌, ltb, leb,
}
use it_works_os.Bits.{bit, mask_set, mask_clear, mask_test}
use it_works_os.Bits.Align.{align_up}
use it_works_os.Layout.{phys_to_virt, kernel_lowmem_limit}
use it_works_os.Pmm.{Pmm, frame_size, strict, alloc}
use it_works_os.Kerror.{Kerror, ok, inval, nomem}

-- The heap, `kheap_free_list`, `kheap_start` and `kheap_end`
pub record Kheap : Type 0 where
  pub sizes : ℕ → ℕ
  pub flags : ℕ → ℕ
  pub footers : ℕ → ℕ
  pub free_list : List ℕ
  pub kheap_start : ℕ
  pub kheap_end : ℕ

-- The sizes of the header and the footer, and KHEAP_MIN_BLOCK_SIZE
abbrev pub header_size : ℕ
header_size = 16

abbrev pub footer_size : ℕ
footer_size = 4

abbrev pub min_block_size : ℕ
min_block_size = 24

-- `KHEAP_FLAG_ALLOC`, tested
abbrev pub is_alloc : ℕ → Bool
is_alloc flags = mask_test flags (bit 0)

-- A field at an address, written.
pub write_field : (ℕ → ℕ) → ℕ → ℕ → ℕ → ℕ
write_field f a v x = if x == a then v else f x

-- `kheap_init`, at what `PMM_ALLOC_LOWMEM(256, &phys)` returns; the debug output is left out.
abbrev pub init_at : Kheap → Kerror × Option ℕ × Pmm → Kerror × Kheap × Pmm
init_at h (e, none, pmm) = (e, h, pmm)
init_at h (e, some phys, pmm) =
    let start = phys_to_virt phys in
    let block_size = frame_size * 256 in
    let end = (start + block_size) % 2 ^ 32 in
    (
      ok,
      record {
        sizes = write_field h.sizes start block_size;
        flags = write_field h.flags start 0;
        footers = write_field h.footers (end - footer_size) block_size;
        free_list = start ∷ [];
        kheap_start = start;
        kheap_end = end;
      },
      pmm,
    )

pub kheap_init : Pmm → Kheap → Kerror × Kheap × Pmm
kheap_init pmm h = init_at h (alloc pmm 0 kernel_lowmem_limit 256 strict true)

-- A node in its list.
pub record FreeNode : Type 0 where
  pub before : List ℕ
  pub header : ℕ
  pub after : List ℕ

abbrev pub past : ℕ → Option FreeNode → Option FreeNode
past p none = none
past p (some n) = some (record n { before = p ∷ n.before })

-- The loop of `kmalloc` over the free list: the first block that is large enough.
pub first_fit : (ℕ → ℕ) → ℕ → List ℕ → Option FreeNode
first_fit sizes block_size [] = none
first_fit sizes block_size (p ∷ ps) =
    let rest = past p (first_fit sizes block_size ps) in
    if leb block_size (sizes p) then some (record { before = []; header = p; after = ps }) else rest

-- The block is split: its rest stands for it in the free list.
pub split_block : Kheap → ℕ → FreeNode → Kheap
split_block h block_size n =
    let remaining = h.sizes n.header - block_size in
    let free_header = n.header + block_size in
    let flags = write_field h.flags n.header (mask_set (h.flags n.header) (bit 0)) in
    record h {
      flags = write_field flags free_header (mask_clear 32 (flags free_header) (bit 0));
      sizes = write_field (write_field h.sizes n.header block_size) free_header remaining;
      footers =
          write_field (write_field h.footers (n.header + block_size - footer_size) block_size)
            (free_header + remaining - footer_size) remaining;
      free_list = n.before ++ (free_header ∷ n.after);
    }

-- The whole block is taken.
pub take_block : Kheap → FreeNode → Kheap
take_block h n = record h {
  free_list = n.before ++ n.after;
  flags = write_field h.flags n.header (mask_set (h.flags n.header) (bit 0));
}

-- What `kmalloc` does with the block that it finds, and the pointer to its payload.
abbrev pub use_block : Kheap → ℕ → Option FreeNode → (Kerror ⊎ ℕ) × Kheap
use_block h block_size none = (inl nomem, h)
use_block h block_size (some n) = (
  inr (n.header + header_size),
  (if leb min_block_size (h.sizes n.header - block_size)
      then split_block h block_size n
      else take_block h n),
)

pub block_size_of : ℕ → ℕ
block_size_of size = (header_size + align_up 32 size 4 + footer_size) % 2 ^ 32

pub kmalloc : ℕ → Kheap → (Kerror ⊎ ℕ) × Kheap
kmalloc size h =
    if size == 0
    then (inl inval, h)
    else use_block h (block_size_of size) (first_fit h.sizes (block_size_of size) h.free_list)

-- `kheap_merge`
abbrev pub kheap_merge : ℕ → ℕ → Kheap → Kheap
kheap_merge left right h =
    let size = (h.sizes left + h.sizes right) % 2 ^ 32 in
    record h {
      sizes = write_field h.sizes left size;
      footers = write_field h.footers (right + h.sizes right - footer_size) size;
    }

-- `list_remove` of the node of a header
pub unlink : ℕ → List ℕ → List ℕ
unlink p [] = []
unlink p (q ∷ qs) = if q == p then qs else q ∷ unlink p qs

-- Whether the block after the one at `hdr`, and the block before it, are free.
pub next_free : Kheap → ℕ → Bool
next_free h hdr =
    if ltb ((hdr + h.sizes hdr) % 2 ^ 32) h.kheap_end
    then not (is_alloc (h.flags (hdr + h.sizes hdr)))
    else false

pub prev_header : Kheap → ℕ → ℕ
prev_header h hdr = hdr - h.footers (hdr - footer_size)

pub prev_free : Kheap → ℕ → Bool
prev_free h hdr =
    if hdr == h.kheap_start then false else not (is_alloc (h.flags (prev_header h hdr)))

-- The end of `kfree`, at the two tests.
pub coalesce : Bool → Bool → ℕ → ℕ → ℕ → Kheap → Kheap
coalesce prev next prev_hdr hdr next_hdr h =
    let h1 = if prev then kheap_merge prev_hdr hdr h else h in
    let hdr1 = if prev then prev_hdr else hdr in
    let h2 =
      if next
      then kheap_merge hdr1 next_hdr (record h1 { free_list = unlink next_hdr h1.free_list })
      else h1 in
    if not prev then record h2 { free_list = hdr1 ∷ h2.free_list } else h2

-- The flag of a header is cleared.
abbrev pub mark_free : ℕ → Kheap → Kheap
mark_free hdr h = record h { flags = write_field h.flags hdr (mask_clear 32 (h.flags hdr) (bit 0)) }

-- `kfree` of the block whose header is at `hdr`
pub free_block : ℕ → Kheap → Kheap
free_block hdr h =
    let h' = mark_free hdr h in
    coalesce (prev_free h' hdr) (next_free h' hdr) (prev_header h' hdr) hdr (hdr + h'.sizes hdr) h'

pub kfree : ℕ → Kheap → Kerror × Kheap
kfree ptr h =
    if ptr == 0
    then (inval, h)
    else if ltb ptr (h.kheap_start + header_size) || leb (h.kheap_end - min_block_size) ptr
    then (inval, h)
    else if not (ptr % 4 == 0)
    then (inval, h)
    else if not (is_alloc (h.flags (ptr - header_size)))
    then (inval, h)
    else (ok, free_block (ptr - header_size) h)
