-- ===== src/Iwbf/Tests.antt =====
-- Runs of kernel/format/iwbf.c and kernel/include/klib/endian.h, and instances of the theorems.
use it_works_os.Base.{ℕ, ◌≤◌, ◌<◌, ◌≡◌, ◌⊎◌, refl, arith, some}
use it_works_os.Iwbf.Headers.{
  store_hdr, store_segment_hdr, narrowed, Verdict, ValidHdr, ValidSegmentHdr, iwbf_parse_hdr_lem,
  iwbf_parse_segment_hdr_lem,
}
use it_works_os.Iwbf.{
  Hdr, SegmentHdr, iwbf_hdr_magic, iwbf_parse_hdr, iwbf_parse_segment_hdr, check_hdr,
}
use it_works_os.Kerror.{inval}

abbrev no_bytes : ℕ → ℕ
no_bytes a = 0

-- The header of user/system.asm, and its segment.
abbrev system_hdr : Hdr
system_hdr = record {
  magic = iwbf_hdr_magic;
  type = 1;
  arch = 1;
  entry = 0x400000;
  segment_count = 1;
}

abbrev system_segment : SegmentHdr
system_segment = record {
  vaddr = 0x400000;
  file_off = 36;
  file_size = 2;
  mem_size = 4096;
  flags = 5;
}

-- A header of 65536 segments is refused: the reader sees none of them.
many_segments : check_hdr (narrowed (record system_hdr { segment_count = 65536 })) ≡ inval
unfolding check_hdr
many_segments = refl

iwbf_parse_hdr_lem_example :
    ((16 < 16)
      × (iwbf_parse_hdr (store_hdr 64 system_hdr no_bytes) 64 16 (some system_hdr)
          ≡ (inval, some system_hdr)))
    ⊎ ((16 ≤ 16)
        × ((iwbf_parse_hdr (store_hdr 64 system_hdr no_bytes) 64 16 (some system_hdr)).1
            ≡ some (narrowed system_hdr))
        × Verdict
            (iwbf_parse_hdr (store_hdr 64 system_hdr no_bytes) 64 16 (some system_hdr)).0
            (ValidHdr system_hdr))
iwbf_parse_hdr_lem_example =
    iwbf_parse_hdr_lem no_bytes 64 16 system_hdr system_hdr (λ a. omega arith) (omega arith)
      (record {
        magic_lt = omega arith;
        type_lt = omega arith;
        arch_lt = omega arith;
        entry_lt = omega arith;
        count_lt = omega arith;
      })

iwbf_parse_segment_hdr_lem_example :
    ((20 < 20)
      × (iwbf_parse_segment_hdr
            (store_segment_hdr 80 system_segment no_bytes)
            80
            20
            (some system_segment)
          ≡ (inval, some system_segment)))
    ⊎ ((20 ≤ 20)
        × ((iwbf_parse_segment_hdr
              (store_segment_hdr 80 system_segment no_bytes)
              80
              20
              (some system_segment)).1
            ≡ some system_segment)
        × Verdict
            (iwbf_parse_segment_hdr
              (store_segment_hdr 80 system_segment no_bytes)
              80
              20
              (some system_segment)).0
            (ValidSegmentHdr system_segment))
iwbf_parse_segment_hdr_lem_example =
    iwbf_parse_segment_hdr_lem no_bytes 80 20 system_segment system_segment (λ a. omega arith)
      (omega arith)
      (record {
        vaddr_lt = omega arith;
        file_off_lt = omega arith;
        file_size_lt = omega arith;
        mem_size_lt = omega arith;
        flags_lt = omega arith;
      })
