-- ===== src/Gdt/Tests.antt =====
-- Instances of the theorems about the descriptors.
use it_works_os.Base.{ℕ, ◌≡◌, ◌≢◌, arith, get_or, replicate, length}
use it_works_os.Gdt.{Entry, raw_zero, x86_gdt_set_entry, x86_gdt_init}
use it_works_os.Gdt.Decode.{
  decode, FlatSegment, TssSegment, x86_gdt_set_entry_lem, x86_gdt_init_lem,
}

x86_gdt_init_lem_example :
    (length (x86_gdt_init 0xC0108000 104) ≡ 6)
    × (get_or (x86_gdt_init 0xC0108000 104) 0 raw_zero ≡ raw_zero)
    × FlatSegment 0 1 (decode (get_or (x86_gdt_init 0xC0108000 104) 1 raw_zero))
    × FlatSegment 0 0 (decode (get_or (x86_gdt_init 0xC0108000 104) 2 raw_zero))
    × FlatSegment 3 1 (decode (get_or (x86_gdt_init 0xC0108000 104) 3 raw_zero))
    × FlatSegment 3 0 (decode (get_or (x86_gdt_init 0xC0108000 104) 4 raw_zero))
    × TssSegment 0xC0108000 104 (decode (get_or (x86_gdt_init 0xC0108000 104) 5 raw_zero))
x86_gdt_init_lem_example = x86_gdt_init_lem 0xC0108000 104 (omega arith) (omega arith) (omega arith)

abbrev segment : Entry
segment = record { limit = 0x12345; base = 0xC0101234; access = 0x89; flags = 4 }

x86_gdt_set_entry_lem_example :
    (decode (get_or (x86_gdt_set_entry 5 segment (replicate 6 raw_zero)) 5 raw_zero) ≡ segment)
    × ((i : ℕ)
        → 5 ≢ i
        → get_or (x86_gdt_set_entry 5 segment (replicate 6 raw_zero)) i raw_zero
          ≡ get_or (replicate 6 raw_zero) i raw_zero)
x86_gdt_set_entry_lem_example =
    x86_gdt_set_entry_lem 5 segment (replicate 6 raw_zero)
      (record { limit_lt = omega arith; base_lt = omega arith; flags_lt = omega arith })
      (omega arith)
