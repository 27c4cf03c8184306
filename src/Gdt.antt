-- ===== src/Gdt.antt =====
-- Model of kernel/arch/x86/cpu/gdt.c, tss.c and interrupt/idt.c: the encoding of the descriptors. The
-- loading of the tables into the processor is left out.
pub mod Decode
pub mod Tests
use it_works_os.Base.{ℕ, ◌-◌, ◌*◌, ◌/◌, ◌%◌, ◌^◌, List, [], ◌∷◌, set, replicate, bit_and, bit_or}
use it_works_os.Bits.{bit}

pub record RawEntry : Type 0 where
  pub limit_low : ℕ
  pub base_low : ℕ
  pub base_mid : ℕ
  pub access_byte : ℕ
  pub limit_high_flags : ℕ
  pub base_high : ℕ

pub record Entry : Type 0 where
  pub limit : ℕ
  pub base : ℕ
  pub access : ℕ
  pub flags : ℕ

-- X86_GDT_FLAG_G_MASK and _DB_MASK; X86_GDT_ACCESS_BYTE_P_MASK, _S_MASK, _E_MASK, _RW_MASK and _A_MASK
abbrev pub flag_g : ℕ
flag_g = bit 3

abbrev pub flag_db : ℕ
flag_db = bit 2

abbrev pub access_p : ℕ
access_p = bit 7

abbrev pub access_s : ℕ
access_s = bit 4

abbrev pub access_e : ℕ
access_e = bit 3

abbrev pub access_rw : ℕ
access_rw = bit 1

abbrev pub access_a : ℕ
access_a = bit 0

abbrev pub gdt_entries : ℕ
gdt_entries = 6

-- The entry that is written.
pub encode : Entry → RawEntry
encode e = record {
  limit_low = bit_and e.limit 0xFFFF % 2 ^ 16;
  base_low = bit_and e.base 0xFFFF % 2 ^ 16;
  base_mid = bit_and (e.base / 2 ^ 16) 0xFF % 2 ^ 8;
  access_byte = e.access;
  limit_high_flags =
      bit_or (bit_and (e.limit / 2 ^ 16) 0x0F % 2 ^ 8) (bit_and (e.flags * 2 ^ 4) 0xF0 % 2 ^ 8);
  base_high = bit_and (e.base / 2 ^ 24) 0xFF % 2 ^ 8;
}

pub x86_gdt_set_entry : ℕ → Entry → List RawEntry → List RawEntry
x86_gdt_set_entry index e gdt = set gdt index (encode e)

abbrev pub zero_entry : Entry
zero_entry = record { limit = 0; base = 0; access = 0; flags = 0 }

abbrev pub flat : ℕ → Entry
flat access = record { limit = 0xFFFFF; base = 0; access = access; flags = bit_or flag_g flag_db }

abbrev pub kern_code : Entry
kern_code = flat (bit_or (bit_or (bit_or (bit_or access_p access_s) access_e) access_rw) access_a)

abbrev pub kern_data : Entry
kern_data = flat (bit_or (bit_or (bit_or access_p access_s) access_rw) access_a)

abbrev pub user_code : Entry
user_code = flat (bit_or kern_code.access 0x60)

abbrev pub user_data : Entry
user_data = flat (bit_or kern_data.access 0x60)

-- The address of the TSS and its size are parameters.
abbrev pub tss_descr : ℕ → ℕ → Entry
tss_descr tss size = record {
  limit = size - 1;
  base = tss;
  access = bit_or (bit_or 0 access_p) 0x9;
  flags = 0;
}

abbrev pub raw_zero : RawEntry
raw_zero = record {
  limit_low = 0;
  base_low = 0;
  base_mid = 0;
  access_byte = 0;
  limit_high_flags = 0;
  base_high = 0;
}

pub x86_gdt_init : ℕ → ℕ → List RawEntry
x86_gdt_init tss size = x86_gdt_set_entry 5 (tss_descr tss size) (
    x86_gdt_set_entry 4 user_data (
      x86_gdt_set_entry 3 user_code (
        x86_gdt_set_entry 2 kern_data (
          x86_gdt_set_entry 1 kern_code
            (x86_gdt_set_entry 0 zero_entry (replicate gdt_entries raw_zero))))))

-- `struct x86_idt_raw_entry` and `struct x86_idt_gate`
pub record RawGate : Type 0 where
  pub offset_low : ℕ
  pub segment_selector : ℕ
  pub reserved : ℕ
  pub gate_flags : ℕ
  pub offset_high : ℕ

pub record Gate : Type 0 where
  pub handler : ℕ
  pub selector : ℕ
  pub flags : ℕ

pub encode_gate : Gate → RawGate
encode_gate g = record {
  offset_low = bit_and g.handler 0xFFFF % 2 ^ 16;
  segment_selector = g.selector;
  reserved = 0;
  gate_flags = g.flags;
  offset_high = bit_and (g.handler / 2 ^ 16) 0xFFFF % 2 ^ 16;
}

pub x86_idt_set_gate : ℕ → Gate → List RawGate → List RawGate
x86_idt_set_gate vector g idt = set idt vector (encode_gate g)
