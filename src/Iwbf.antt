-- ===== src/Iwbf.antt =====
-- Model of kernel/format/iwbf.c and kernel/include/format/iwbf.h, the format of executables. A
-- buffer is an address of memory, 0 for NULL; the destination is the structure as it was, or none
-- for NULL.
pub mod Headers
pub mod Tests
use it_works_os.Base.{
  ℕ, ◌+◌, ◌^◌, Bool, Option, none, some, if◌then◌else◌, ◌==◌, ltb, bit_and, bit_or, not, ◌||◌,
}
use it_works_os.Bits.{complement}
use it_works_os.Endian.{read_le16, read_le32}
use it_works_os.Kerror.{Kerror, ok, inval}

abbrev pub iwbf_hdr_magic : ℕ
iwbf_hdr_magic = 0x46425749

abbrev pub iwbf_hdr_type_exec : ℕ
iwbf_hdr_type_exec = 1

abbrev pub iwbf_hdr_arch_i386 : ℕ
iwbf_hdr_arch_i386 = 1

pub record Hdr : Type 0 where
  pub magic : ℕ
  pub type : ℕ
  pub arch : ℕ
  pub entry : ℕ
  pub segment_count : ℕ

-- READ | WRITE | EXEC
abbrev pub iwbf_seg_flags : ℕ
iwbf_seg_flags = bit_or (bit_or 1 2) 4

pub record SegmentHdr : Type 0 where
  pub vaddr : ℕ
  pub file_off : ℕ
  pub file_size : ℕ
  pub mem_size : ℕ
  pub flags : ℕ

abbrev pub iwbf_hdr_size : ℕ
iwbf_hdr_size = 16

abbrev pub iwbf_segment_hdr_size : ℕ
iwbf_segment_hdr_size = 20

-- The tests after the fields are read.
pub check_hdr : Hdr → Kerror
check_hdr h =
    if not (h.magic == iwbf_hdr_magic)
    then inval
    else if not (h.type == iwbf_hdr_type_exec)
    then inval
    else if not (h.arch == iwbf_hdr_arch_i386)
    then inval
    else if h.segment_count == 0
    then inval
    else ok

pub read_hdr : (ℕ → ℕ) → ℕ → Hdr
read_hdr m p = record {
  magic = read_le32 m p;
  type = read_le16 m (p + 4);
  arch = read_le16 m (p + 6);
  entry = read_le32 m (p + 8);
  segment_count = read_le16 m (p + 12);
}

pub iwbf_parse_hdr : (ℕ → ℕ) → ℕ → ℕ → Option Hdr → Kerror × Option Hdr
unfolding check_hdr read_hdr
iwbf_parse_hdr m buf size none = (inval, none)
iwbf_parse_hdr m buf size (some out) =
    if buf == 0
    then (inval, some out)
    else if ltb size iwbf_hdr_size
    then (inval, some out)
    else let h = read_hdr m buf in (check_hdr h, some h)

pub check_segment_hdr : SegmentHdr → Kerror
check_segment_hdr s =
    if ltb s.mem_size s.file_size
    then inval
    else if bit_and s.flags iwbf_seg_flags == 0
    then inval
    else if not (bit_and s.flags (complement 32 iwbf_seg_flags) == 0)
    then inval
    else ok

pub read_segment_hdr : (ℕ → ℕ) → ℕ → SegmentHdr
read_segment_hdr m p = record {
  vaddr = read_le32 m p;
  file_off = read_le32 m (p + 4);
  file_size = read_le32 m (p + 8);
  mem_size = read_le32 m (p + 12);
  flags = read_le32 m (p + 16);
}

pub iwbf_parse_segment_hdr : (ℕ → ℕ) → ℕ → ℕ → Option SegmentHdr → Kerror × Option SegmentHdr
unfolding check_segment_hdr read_segment_hdr
iwbf_parse_segment_hdr m buf size none = (inval, none)
iwbf_parse_segment_hdr m buf size (some out) =
    if buf == 0
    then (inval, some out)
    else if ltb size iwbf_segment_hdr_size
    then (inval, some out)
    else let s = read_segment_hdr m buf in (check_segment_hdr s, some s)
