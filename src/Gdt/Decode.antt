-- ===== src/Gdt/Decode.antt =====
-- The processor's reading of the descriptors of kernel/arch/x86/cpu/gdt.c and interrupt/idt.c.
use mathlib.Core.Path.{subst}
use it_works_os.Base.{
  ℕ, ◌+◌, ◌-◌, ◌*◌, ◌/◌, ◌%◌, ◌^◌, ◌≤◌, ◌<◌, ◌≡◌, refl, ap, sym, ◌∙◌, arith, List, get_or,
  get_or-set_self, get_or-set_ne, length, bit_and, bit_or, ◌≢◌,
}
use it_works_os.Bits.Align.{bit_and_high}
use it_works_os.Bits.Mask.{bit_and_mask}
use it_works_os.Bits.Page.{bit_or_above}
use it_works_os.Gdt.{
  RawEntry, Entry, encode, x86_gdt_set_entry, x86_gdt_init, raw_zero, flat, kern_code, kern_data,
  user_code, user_data, tss_descr, RawGate, Gate, encode_gate, x86_idt_set_gate,
}

-- The fields of a segment descriptor, as the processor joins them.
abbrev pub decode : RawEntry → Entry
decode r = record {
  limit = r.limit_low + 65536 * (r.limit_high_flags % 16);
  base = r.base_low + 65536 * r.base_mid + 16777216 * r.base_high;
  access = r.access_byte;
  flags = r.limit_high_flags / 16;
}

abbrev pub decode_gate : RawGate → Gate
decode_gate r = record {
  handler = r.offset_low + 65536 * r.offset_high;
  selector = r.segment_selector;
  flags = r.gate_flags;
}

pub record FitsEntry (e : Entry) : Type 0 where
  pub limit_lt : e.limit < 2 ^ 20
  pub base_lt : e.base < 2 ^ 32
  pub flags_lt : e.flags < 16

nibbles :
    (low high : ℕ)
    → low < 16
    → high < 16
    → bit_or low (bit_and (high * 2 ^ 4) 0xF0 % 2 ^ 8) ≡ high * 16 + low
nibbles low high hl hh =
    let kept : bit_and (high * 2 ^ 4 + 0) 0xF0 ≡ high * 2 ^ 4 =
      bit_and_high 4 8 high 0 (omega arith) (omega arith) (omega arith) in
    let small : bit_and (high * 2 ^ 4) 0xF0 % 2 ^ 8 ≡ high * 2 ^ 4 =
      ap (λ q. bit_and q 0xF0 % 2 ^ 8) (omega arith) ∙ ap (λ q. q % 2 ^ 8) kept ∙ omega arith in
    rw small (bit_or_above 4 high low hl)

decode-encode : (e : Entry) → FitsEntry e → decode (encode e) ≡ e
unfolding encode
decode-encode e fits =
    let low : bit_and e.limit 0xFFFF ≡ e.limit % 2 ^ 16 = bit_and_mask 16 e.limit in
    let nibble : bit_and (e.limit / 2 ^ 16) 0x0F % 2 ^ 8 ≡ e.limit / 2 ^ 16 =
      omega (arith, bit_and_mask 4 (e.limit / 2 ^ 16), fits.limit_lt) in
    let joined : (encode e).limit_high_flags ≡ e.flags * 16 + e.limit / 2 ^ 16 =
      ap (λ q. bit_or q (bit_and (e.flags * 2 ^ 4) 0xF0 % 2 ^ 8)) nibble
      ∙ nibbles (e.limit / 2 ^ 16) e.flags (omega (arith, fits.limit_lt)) fits.flags_lt in
    let b0 = bit_and_mask 16 e.base in
    let b1 = bit_and_mask 8 (e.base / 2 ^ 16) in
    let b2 = bit_and_mask 8 (e.base / 2 ^ 24) in
    let limit_eq : (decode (encode e)).limit ≡ e.limit =
      omega (arith, low, joined, fits.limit_lt) in
    let base_eq : (decode (encode e)).base ≡ e.base = omega (arith, b0, b1, b2, fits.base_lt) in
    let flags_eq : (decode (encode e)).flags ≡ e.flags =
      omega (arith, joined, fits.limit_lt, fits.flags_lt) in
    λ i. record { limit = limit_eq i; base = base_eq i; access = e.access; flags = flags_eq i }

-- An entry with a limit of 20 bits, a base of 32 and flags of 4 that x86_gdt_set_entry writes is
-- read back as it was, and no other entry of the table changes.
pub x86_gdt_set_entry_lem :
    (index : ℕ) (e : Entry) (gdt : List RawEntry)
    → FitsEntry e
    → index < length gdt
    → (decode (get_or (x86_gdt_set_entry index e gdt) index raw_zero) ≡ e)
      × ((i : ℕ)
          → index ≢ i
          → get_or (x86_gdt_set_entry index e gdt) i raw_zero ≡ get_or gdt i raw_zero)
unfolding x86_gdt_set_entry
x86_gdt_set_entry_lem index e gdt fits inside = (
  ap decode (get_or-set_self gdt index (encode e) raw_zero inside) ∙ decode-encode e fits,
  λ i ne. get_or-set_ne gdt index i (encode e) raw_zero ne,
)

-- The processor's reading of a present segment of code or data, of privilege `ring`, that holds all
-- 4 GiB in pages of 4 KiB and can be written, or read if it is code.
pub record FlatSegment (ring executable : ℕ) (e : Entry) : Type 0 where
  pub all : (e.base ≡ 0) × (e.limit ≡ 2 ^ 20 - 1)
  pub present : e.access / 128 ≡ 1
  pub privilege : e.access / 32 % 4 ≡ ring
  pub code_or_data : e.access / 16 % 2 ≡ 1
  pub executable_bit : e.access / 8 % 2 ≡ executable
  pub upwards : e.access / 4 % 2 ≡ 0
  pub accessible : e.access / 2 % 2 ≡ 1
  pub in_pages : e.flags / 8 ≡ 1
  pub of_32_bits : e.flags / 4 % 2 ≡ 1

-- A present segment of the kernel for the TSS of 32 bits that is not busy, in bytes.
pub record TssSegment (tss size : ℕ) (e : Entry) : Type 0 where
  pub start : e.base ≡ tss
  pub last : e.limit + 1 ≡ size
  pub present : e.access / 128 ≡ 1
  pub privilege : e.access / 32 % 4 ≡ 0
  pub system : e.access / 16 % 2 ≡ 0
  pub type : e.access % 16 ≡ 9
  pub in_bytes : e.flags / 8 ≡ 0

segment_at : (P : Entry → Type 0) (e : Entry) → FitsEntry e → P e → P (decode (encode e))
segment_at P e fits h = subst P (sym (decode-encode e fits)) h

flat-FitsEntry : (access : ℕ) → FitsEntry (flat access)
flat-FitsEntry access = record {
  limit_lt = omega arith;
  base_lt = omega arith;
  flags_lt = omega arith;
}

-- The table of x86_gdt_init has six entries: one of zeros, then, as the processor reads them, the
-- flat segments for code and data of the kernel (ring 0) and for code and data of user programs (ring 3),
-- then the segment of the TSS, from its address to its last byte.
pub x86_gdt_init_lem :
    (tss size : ℕ)
    → tss < 2 ^ 32
    → 0 < size
    → size ≤ 2 ^ 20
    → let gdt = x86_gdt_init tss size in
      (length gdt ≡ 6)
      × (get_or gdt 0 raw_zero ≡ raw_zero)
      × FlatSegment 0 1 (decode (get_or gdt 1 raw_zero))
      × FlatSegment 0 0 (decode (get_or gdt 2 raw_zero))
      × FlatSegment 3 1 (decode (get_or gdt 3 raw_zero))
      × FlatSegment 3 0 (decode (get_or gdt 4 raw_zero))
      × TssSegment tss size (decode (get_or gdt 5 raw_zero))
unfolding x86_gdt_init x86_gdt_set_entry
x86_gdt_init_lem tss size word some_bytes small = (
  refl,
  unfold encode in refl,
  segment_at (FlatSegment 0 1) kern_code (flat-FitsEntry _) (record {
    all = (refl, refl);
    present = refl;
    privilege = refl;
    code_or_data = refl;
    executable_bit = refl;
    upwards = refl;
    accessible = refl;
    in_pages = refl;
    of_32_bits = refl;
  }),
  segment_at (FlatSegment 0 0) kern_data (flat-FitsEntry _) (record {
    all = (refl, refl);
    present = refl;
    privilege = refl;
    code_or_data = refl;
    executable_bit = refl;
    upwards = refl;
    accessible = refl;
    in_pages = refl;
    of_32_bits = refl;
  }),
  segment_at (FlatSegment 3 1) user_code (flat-FitsEntry _) (record {
    all = (refl, refl);
    present = refl;
    privilege = refl;
    code_or_data = refl;
    executable_bit = refl;
    upwards = refl;
    accessible = refl;
    in_pages = refl;
    of_32_bits = refl;
  }),
  segment_at (FlatSegment 3 0) user_data (flat-FitsEntry _) (record {
    all = (refl, refl);
    present = refl;
    privilege = refl;
    code_or_data = refl;
    executable_bit = refl;
    upwards = refl;
    accessible = refl;
    in_pages = refl;
    of_32_bits = refl;
  }),
  segment_at (TssSegment tss size) (tss_descr tss size)
      (record { limit_lt = omega arith; base_lt = word; flags_lt = omega arith })
      (record {
        start = refl;
        last = omega arith;
        present = refl;
        privilege = refl;
        system = refl;
        type = refl;
        in_bytes = refl;
      }),
)

-- A gate keeps the address of its handler, its selector and its flags.
pub x86_idt_set_gate_lem :
    (vector : ℕ) (g : Gate) (idt : List RawGate) (blank : RawGate)
    → g.handler < 2 ^ 32
    → vector < length idt
    → decode_gate (get_or (x86_idt_set_gate vector g idt) vector blank) ≡ g
unfolding x86_idt_set_gate encode_gate
x86_idt_set_gate_lem vector g idt blank word inside =
    let low = bit_and_mask 16 g.handler in
    let high = bit_and_mask 16 (g.handler / 2 ^ 16) in
    let handler_eq : (decode_gate (encode_gate g)).handler ≡ g.handler = omega (arith, low, high) in
    ap decode_gate (get_or-set_self idt vector (encode_gate g) blank inside)
    ∙ (λ i. record { handler = handler_eq i; selector = g.selector; flags = g.flags })
