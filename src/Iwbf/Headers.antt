-- ===== src/Iwbf/Headers.antt =====
-- The headers of kernel/format/iwbf.c against the layout of the structures in
-- kernel/include/format/iwbf.h.
use mathlib.Core.Path.{subst}
use it_works_os.Base.{
  ℕ, ◌+◌, ◌*◌, ◌/◌, ◌%◌, ◌^◌, ◌≤◌, ◌<◌, ◌≡◌, ◌≢◌, ◌⊎◌, ◌↔◌, inl, inr, refl, sym, ap, ◌∙◌, arith,
  some, ◌==◌, Bool-cases, ltb, false, bit_and,
}
use it_works_os.Bits.{complement}
use it_works_os.Bits.Align.{bit_and_high}
use it_works_os.Bits.Mask.{bit_and_mask}
use it_works_os.Endian.Laws.{
  write_le16-bytes, write_le32-bytes, write_le16-lt, write_le32-lt, read_le32-write_le32,
  read_le16-write_le16, read_le32-same, read_le16-same, read_le16-write_le32,
}
use it_works_os.Endian.{read_le16, read_le32, write_le16, write_le32}
use it_works_os.Iwbf.{
  Hdr, SegmentHdr, iwbf_seg_flags, iwbf_hdr_magic, check_hdr, read_hdr, iwbf_parse_hdr,
  check_segment_hdr, read_segment_hdr, iwbf_parse_segment_hdr,
}
use it_works_os.Kerror.{Kerror, ok, inval}

-- The structure in memory: magic and type and arch and entry and segment_count, the last of 32 bits.
abbrev pub store_hdr : ℕ → Hdr → (ℕ → ℕ) → ℕ → ℕ
store_hdr p h m = write_le32 (p + 12) h.segment_count (
    write_le32 (p + 8) h.entry
      (write_le16 (p + 6) h.arch (write_le16 (p + 4) h.type (write_le32 p h.magic m))))

abbrev pub store_segment_hdr : ℕ → SegmentHdr → (ℕ → ℕ) → ℕ → ℕ
store_segment_hdr p s m = write_le32 (p + 16) s.flags (
    write_le32 (p + 12) s.mem_size
      (write_le32 (p + 8) s.file_size (write_le32 (p + 4) s.file_off (write_le32 p s.vaddr m))))

pub record FitsHdr (h : Hdr) : Type 0 where
  pub magic_lt : h.magic < 2 ^ 32
  pub type_lt : h.type < 2 ^ 16
  pub arch_lt : h.arch < 2 ^ 16
  pub entry_lt : h.entry < 2 ^ 32
  pub count_lt : h.segment_count < 2 ^ 32

pub record FitsSegmentHdr (s : SegmentHdr) : Type 0 where
  pub vaddr_lt : s.vaddr < 2 ^ 32
  pub file_off_lt : s.file_off < 2 ^ 32
  pub file_size_lt : s.file_size < 2 ^ 32
  pub mem_size_lt : s.mem_size < 2 ^ 32
  pub flags_lt : s.flags < 2 ^ 32

-- What is read from a stored header: only 16 bits of the number of segments.
abbrev pub narrowed : Hdr → Hdr
narrowed h = record h { segment_count = h.segment_count % 2 ^ 16 }

module _ (m : ℕ → ℕ) (p : ℕ) (bytes : (a : ℕ) → m a < 256) where
  read_hdr-store_hdr : (h : Hdr) → FitsHdr h → read_hdr (store_hdr p h m) p ≡ narrowed h
  unfolding read_hdr
  read_hdr-store_hdr h fits =
      let m1 = write_le32 p h.magic m in
      let m2 = write_le16 (p + 4) h.type m1 in
      let m3 = write_le16 (p + 6) h.arch m2 in
      let m4 = write_le32 (p + 8) h.entry m3 in
      let m5 = write_le32 (p + 12) h.segment_count m4 in
      let b1 = write_le32-lt m p h.magic bytes in
      let b2 = write_le16-lt m1 (p + 4) h.type b1 in
      let b3 = write_le16-lt m2 (p + 6) h.arch b2 in
      let b4 = write_le32-lt m3 (p + 8) h.entry b3 in
      let s2 = (write_le16-bytes m1 (p + 4) h.type).2 in
      let s3 = (write_le16-bytes m2 (p + 6) h.arch).2 in
      let s4 = (write_le32-bytes m3 (p + 8) h.entry).4 in
      let s5 = (write_le32-bytes m4 (p + 12) h.segment_count).4 in
      let magic : read_le32 m5 p ≡ h.magic =
        read_le32-same m4 m5 (p + 12) 4 p s5 (inl (omega arith))
        ∙ read_le32-same m3 m4 (p + 8) 4 p s4 (inl (omega arith))
        ∙ read_le32-same m2 m3 (p + 6) 2 p s3 (inl (omega arith))
        ∙ read_le32-same m1 m2 (p + 4) 2 p s2 (inl (omega arith))
        ∙ read_le32-write_le32 m p h.magic bytes fits.magic_lt in
      let type_eq : read_le16 m5 (p + 4) ≡ h.type =
        read_le16-same m4 m5 (p + 12) 4 (p + 4) s5 (inl (omega arith))
        ∙ read_le16-same m3 m4 (p + 8) 4 (p + 4) s4 (inl (omega arith))
        ∙ read_le16-same m2 m3 (p + 6) 2 (p + 4) s3 (inl (omega arith))
        ∙ read_le16-write_le16 m1 (p + 4) h.type b1 fits.type_lt in
      let arch_eq : read_le16 m5 (p + 6) ≡ h.arch =
        read_le16-same m4 m5 (p + 12) 4 (p + 6) s5 (inl (omega arith))
        ∙ read_le16-same m3 m4 (p + 8) 4 (p + 6) s4 (inl (omega arith))
        ∙ read_le16-write_le16 m2 (p + 6) h.arch b2 fits.arch_lt in
      let entry : read_le32 m5 (p + 8) ≡ h.entry =
        read_le32-same m4 m5 (p + 12) 4 (p + 8) s5 (inl (omega arith))
        ∙ read_le32-write_le32 m3 (p + 8) h.entry b3 fits.entry_lt in
      let count = read_le16-write_le32 m4 (p + 12) h.segment_count b4 in
      λ i. record {
        magic = magic i;
        type = type_eq i;
        arch = arch_eq i;
        entry = entry i;
        segment_count = count i;
      }

  read_segment_hdr-store_segment_hdr :
      (s : SegmentHdr) → FitsSegmentHdr s → read_segment_hdr (store_segment_hdr p s m) p ≡ s
  unfolding read_segment_hdr
  read_segment_hdr-store_segment_hdr s fits =
      let m1 = write_le32 p s.vaddr m in
      let m2 = write_le32 (p + 4) s.file_off m1 in
      let m3 = write_le32 (p + 8) s.file_size m2 in
      let m4 = write_le32 (p + 12) s.mem_size m3 in
      let m5 = write_le32 (p + 16) s.flags m4 in
      let b1 = write_le32-lt m p s.vaddr bytes in
      let b2 = write_le32-lt m1 (p + 4) s.file_off b1 in
      let b3 = write_le32-lt m2 (p + 8) s.file_size b2 in
      let b4 = write_le32-lt m3 (p + 12) s.mem_size b3 in
      let s2 = (write_le32-bytes m1 (p + 4) s.file_off).4 in
      let s3 = (write_le32-bytes m2 (p + 8) s.file_size).4 in
      let s4 = (write_le32-bytes m3 (p + 12) s.mem_size).4 in
      let s5 = (write_le32-bytes m4 (p + 16) s.flags).4 in
      let last : (a : ℕ) → a + 4 ≤ p + 16 → read_le32 m5 a ≡ read_le32 m4 a =
        λ a h. read_le32-same m4 m5 (p + 16) 4 a s5 (inl h) in
      let before_mem : (a : ℕ) → a + 4 ≤ p + 12 → read_le32 m5 a ≡ read_le32 m3 a =
        λ a h. last a (omega arith) ∙ read_le32-same m3 m4 (p + 12) 4 a s4 (inl h) in
      let before_size : (a : ℕ) → a + 4 ≤ p + 8 → read_le32 m5 a ≡ read_le32 m2 a =
        λ a h. before_mem a (omega arith) ∙ read_le32-same m2 m3 (p + 8) 4 a s3 (inl h) in
      let vaddr : read_le32 m5 p ≡ s.vaddr =
        before_size p (omega arith)
        ∙ read_le32-same m1 m2 (p + 4) 4 p s2 (inl (omega arith))
        ∙ read_le32-write_le32 m p s.vaddr bytes fits.vaddr_lt in
      let off : read_le32 m5 (p + 4) ≡ s.file_off =
        before_size (p + 4) (omega arith)
        ∙ read_le32-write_le32 m1 (p + 4) s.file_off b1 fits.file_off_lt in
      let size : read_le32 m5 (p + 8) ≡ s.file_size =
        before_mem (p + 8) (omega arith)
        ∙ read_le32-write_le32 m2 (p + 8) s.file_size b2 fits.file_size_lt in
      let mem : read_le32 m5 (p + 12) ≡ s.mem_size =
        last (p + 12) (omega arith)
        ∙ read_le32-write_le32 m3 (p + 12) s.mem_size b3 fits.mem_size_lt in
      let flags = read_le32-write_le32 m4 (p + 16) s.flags b4 fits.flags_lt in
      λ i. record {
        vaddr = vaddr i;
        file_off = off i;
        file_size = size i;
        mem_size = mem i;
        flags = flags i;
      }

-- The flags are some of the three known ones.
flags_lem :
    (f : ℕ)
    → f < 2 ^ 32
    → (bit_and f iwbf_seg_flags ≡ f % 8) × (bit_and f (complement 32 iwbf_seg_flags) ≡ f / 8 * 8)
flags_lem f h =
    let e : f / 8 * 2 ^ 3 + f % 8 ≡ f = omega arith in
    (
      bit_and_mask 3 f,
      rw e at (bit_and_high 3 32 (f / 8) (f % 8) (omega arith) (omega arith) (omega arith)),
    )

abbrev pub ValidHdr : Hdr → Type 0
ValidHdr h =
    (h.magic ≡ iwbf_hdr_magic) × (h.type ≡ 1) × (h.arch ≡ 1) × (h.segment_count % 2 ^ 16 ≢ 0)

abbrev pub ValidSegmentHdr : SegmentHdr → Type 0
ValidSegmentHdr s = (s.file_size ≤ s.mem_size) × (0 < s.flags) × (s.flags < 8)

check_hdr_lem : (h : Hdr) → (check_hdr (narrowed h) ≡ ok) ↔ ValidHdr h
unfolding check_hdr
check_hdr_lem h = ground arith

check_segment_hdr_lem :
    (s : SegmentHdr) → s.flags < 2 ^ 32 → (check_segment_hdr s ≡ ok) ↔ ValidSegmentHdr s
unfolding check_segment_hdr
check_segment_hdr_lem s h = let (low, high) = flags_lem s.flags h in rw (low, high) (ground arith)

check_hdr-code : (h : Hdr) → (check_hdr h ≡ ok) ⊎ (check_hdr h ≡ inval)
unfolding check_hdr
check_hdr-code h = ground arith

check_segment_hdr-code :
    (s : SegmentHdr) → (check_segment_hdr s ≡ ok) ⊎ (check_segment_hdr s ≡ inval)
unfolding check_segment_hdr
check_segment_hdr-code s = ground arith

-- The code that the two tests return is KERR_OK or INVAL.
abbrev pub Verdict : Kerror → Type 0 → Type 0
Verdict e valid = ((e ≡ ok) ⊎ (e ≡ inval)) × ((e ≡ ok) ↔ valid)

-- A header that lies in memory as the structure struct iwbf32_hdr, with its 32 bits of segments.
-- Below 16 bytes it is refused and the destination is as it was. Otherwise iwbf_parse_hdr delivers
-- the fields, of the number of segments only the lower 16 bits, and returns KERR_OK when the magic
-- number, the type and the architecture are the known ones and those 16 bits are not all zero,
-- and INVAL when not.
pub iwbf_parse_hdr_lem :
    (m : ℕ → ℕ) (p size : ℕ) (h out : Hdr)
    → ((a : ℕ) → m a < 256)
    → p ≢ 0
    → FitsHdr h
    → ((size < 16) × (iwbf_parse_hdr (store_hdr p h m) p size (some out) ≡ (inval, some out)))
      ⊎ ((16 ≤ size)
          × ((iwbf_parse_hdr (store_hdr p h m) p size (some out)).1 ≡ some (narrowed h))
          × Verdict (iwbf_parse_hdr (store_hdr p h m) p size (some out)).0 (ValidHdr h))
unfolding iwbf_parse_hdr
iwbf_parse_hdr_lem m p size h out bytes ne fits =
    let e : (p == 0) ≡ false = ground arith in
    let fields = read_hdr-store_hdr m p bytes h fits in
    elim (Bool-cases (ltb size 16)) [
      | inl short ↦ inl (ground arith, rw (e, short) refl)
      | inr long ↦ inr (
        ground arith,
        rw (e, long) (ap some fields),
        rw (e, long)
            (subst (λ t. Verdict (check_hdr t) (ValidHdr h)) (sym fields)
              (check_hdr-code (narrowed h), check_hdr_lem h)),
      )
    ]

-- The same for a segment: all its fields are delivered, and it is accepted when it is no larger in
-- the file than in memory and its flags are some of the three known ones, at least one.
pub iwbf_parse_segment_hdr_lem :
    (m : ℕ → ℕ) (p size : ℕ) (s out : SegmentHdr)
    → ((a : ℕ) → m a < 256)
    → p ≢ 0
    → FitsSegmentHdr s
    → ((size < 20)
        × (iwbf_parse_segment_hdr (store_segment_hdr p s m) p size (some out) ≡ (inval, some out)))
      ⊎ ((20 ≤ size)
          × ((iwbf_parse_segment_hdr (store_segment_hdr p s m) p size (some out)).1 ≡ some s)
          × Verdict
              (iwbf_parse_segment_hdr (store_segment_hdr p s m) p size (some out)).0
              (ValidSegmentHdr s))
unfolding iwbf_parse_segment_hdr
iwbf_parse_segment_hdr_lem m p size s out bytes ne fits =
    let e : (p == 0) ≡ false = ground arith in
    let fields = read_segment_hdr-store_segment_hdr m p bytes s fits in
    elim (Bool-cases (ltb size 20)) [
      | inl short ↦ inl (ground arith, rw (e, short) refl)
      | inr long ↦ inr (
        ground arith,
        rw (e, long) (ap some fields),
        rw (e, long)
            (subst (λ t. Verdict (check_segment_hdr t) (ValidSegmentHdr s)) (sym fields)
              (check_segment_hdr-code s, check_segment_hdr_lem s fits.flags_lt)),
      )
    ]
