-- ===== src/Endian/Laws.antt =====
-- Little-endian numbers of klib/endian.h: their values, and the round trips.
use it_works_os.Base.{ℕ, ◌+◌, ◌*◌, ◌/◌, ◌%◌, ◌^◌, ◌≤◌, ◌<◌, ◌≡◌, ◌⊎◌, refl, ap, ◌∙◌, arith, bit_or}
use it_works_os.Bits.Page.{bit_or_above}
use it_works_os.Endian.{
  read_le16, read_le32, read_le64, write_le16, write_le32, write_le64, byte_at,
}
use it_works_os.Memory.{write_byte}

module _ (m : ℕ → ℕ) (bytes : (a : ℕ) → m a < 256) where
  pub read_le16-value : (buf : ℕ) → read_le16 m buf ≡ m buf + 256 * m (buf + 1)
  unfolding read_le16
  read_le16-value buf =
      omega (arith, bytes buf, bytes (buf + 1), bit_or_above 8 (m (buf + 1)) (m buf) (bytes buf))

  pub read_le32-value :
      (buf : ℕ)
      → read_le32 m buf ≡ m buf + 256 * m (buf + 1) + 65536 * m (buf + 2) + 16777216 * m (buf + 3)
  unfolding read_le32
  read_le32-value buf =
      let b0 = bytes buf in
      let b1 = bytes (buf + 1) in
      let b2 = bytes (buf + 2) in
      let e1 = bit_or_above 8 (m (buf + 1)) (m buf) b0 in
      let e2 = bit_or_above 16 (m (buf + 2)) (m (buf + 1) * 2 ^ 8 + m buf) (omega arith) in
      let e3 =
        bit_or_above 24 (m (buf + 3)) (m (buf + 2) * 2 ^ 16 + (m (buf + 1) * 2 ^ 8 + m buf))
          (omega arith) in
      rw (e1, e2, e3) (omega arith)

  half_lem :
      (buf : ℕ)
      → read_le64 m buf
        ≡ bit_or
            (bit_or
              (bit_or (bit_or (read_le32 m buf) (byte_at m (buf + 4) 32)) (byte_at m (buf + 5) 40))
              (byte_at m (buf + 6) 48))
            (byte_at m (buf + 7) 56)
  unfolding read_le64 read_le32
  half_lem buf = refl

  high_value :
      (buf : ℕ)
      → read_le32 m (buf + 4)
        ≡ m (buf + 4) + 256 * m (buf + 5) + 65536 * m (buf + 6) + 16777216 * m (buf + 7)
  high_value buf =
      let shift : (i j : ℕ) → j ≡ 4 + i → m (buf + 4 + i) ≡ m (buf + j) =
        λ i j e. ap m (omega arith) in
      omega (
        arith,
        read_le32-value (buf + 4),
        shift 1 5 (omega arith),
        shift 2 6 (omega arith),
        shift 3 7 (omega arith),
      )

  pub read_le64-value :
      (buf : ℕ) → read_le64 m buf ≡ read_le32 m buf + 4294967296 * read_le32 m (buf + 4)
  read_le64-value buf =
      let low = read_le32-value buf in
      let high = high_value buf in
      let b0 = bytes buf in
      let b1 = bytes (buf + 1) in
      let b2 = bytes (buf + 2) in
      let b3 = bytes (buf + 3) in
      let b4 = bytes (buf + 4) in
      let b5 = bytes (buf + 5) in
      let b6 = bytes (buf + 6) in
      let b7 = bytes (buf + 7) in
      let half = read_le32 m buf in
      let e4 = bit_or_above 32 (m (buf + 4)) half (omega arith) in
      let e5 = bit_or_above 40 (m (buf + 5)) (m (buf + 4) * 2 ^ 32 + half) (omega arith) in
      let e6 =
        bit_or_above 48 (m (buf + 6)) (m (buf + 5) * 2 ^ 40 + (m (buf + 4) * 2 ^ 32 + half))
          (omega arith) in
      let e7 =
        bit_or_above 56 (m (buf + 7))
          (m (buf + 6) * 2 ^ 48 + (m (buf + 5) * 2 ^ 40 + (m (buf + 4) * 2 ^ 32 + half)))
          (omega arith) in
      half_lem buf ∙ (rw (e4, e5, e6, e7) (omega arith))

  pub read_le16-lt : (buf : ℕ) → read_le16 m buf < 2 ^ 16
  read_le16-lt buf = omega (arith, read_le16-value buf, bytes buf, bytes (buf + 1))

  pub read_le32-lt : (buf : ℕ) → read_le32 m buf < 2 ^ 32
  read_le32-lt buf =
      omega
        (arith, read_le32-value buf, bytes buf, bytes (buf + 1), bytes (buf + 2), bytes (buf + 3))

-- The memory outside a store.
abbrev pub SameBut : ℕ → ℕ → (ℕ → ℕ) → (ℕ → ℕ) → Type 0
SameBut buf n m m' = (a : ℕ) → (a < buf) ⊎ (buf + n ≤ a) → m' a ≡ m a

module _ (m : ℕ → ℕ) (buf v : ℕ) where
  pub write_le16-bytes :
      (write_le16 buf v m buf ≡ v % 256)
      × (write_le16 buf v m (buf + 1) ≡ v / 256 % 256)
      × SameBut buf 2 m (write_le16 buf v m)
  unfolding write_le16 write_byte
  write_le16-bytes = (ground arith, ground arith, λ a h. ground arith)

  pub write_le32-bytes :
      (write_le32 buf v m buf ≡ v % 256)
      × (write_le32 buf v m (buf + 1) ≡ v / 256 % 256)
      × (write_le32 buf v m (buf + 2) ≡ v / 65536 % 256)
      × (write_le32 buf v m (buf + 3) ≡ v / 16777216 % 256)
      × SameBut buf 4 m (write_le32 buf v m)
  unfolding write_le32 write_byte
  write_le32-bytes = (ground arith, ground arith, ground arith, ground arith, λ a h. ground arith)

  pub write_le64-bytes :
      (write_le64 buf v m buf ≡ v % 256)
      × (write_le64 buf v m (buf + 1) ≡ v / 256 % 256)
      × (write_le64 buf v m (buf + 2) ≡ v / 65536 % 256)
      × (write_le64 buf v m (buf + 3) ≡ v / 16777216 % 256)
      × (write_le64 buf v m (buf + 4) ≡ v / 4294967296 % 256)
      × (write_le64 buf v m (buf + 5) ≡ v / 1099511627776 % 256)
      × (write_le64 buf v m (buf + 6) ≡ v / 281474976710656 % 256)
      × (write_le64 buf v m (buf + 7) ≡ v / 72057594037927936 % 256)
      × SameBut buf 8 m (write_le64 buf v m)
  unfolding write_le64 write_byte
  write_le64-bytes = (
    ground arith,
    ground arith,
    ground arith,
    ground arith,
    ground arith,
    ground arith,
    ground arith,
    ground arith,
    λ a h. ground arith,
  )

  module _ (bytes : (a : ℕ) → m a < 256) where
    pub write_le16-lt : (a : ℕ) → write_le16 buf v m a < 256
    unfolding write_le16 write_byte
    write_le16-lt a = ground (arith, bytes a)

    pub write_le32-lt : (a : ℕ) → write_le32 buf v m a < 256
    unfolding write_le32 write_byte
    write_le32-lt a = ground (arith, bytes a)

    pub read_le16-write_le16 : v < 2 ^ 16 → read_le16 (write_le16 buf v m) buf ≡ v
    read_le16-write_le16 h =
        omega (arith, read_le16-value (write_le16 buf v m) write_le16-lt buf, write_le16-bytes)

    pub read_le32-write_le32 : v < 2 ^ 32 → read_le32 (write_le32 buf v m) buf ≡ v
    read_le32-write_le32 h =
        omega (arith, read_le32-value (write_le32 buf v m) write_le32-lt buf, write_le32-bytes)

    write_le64-lt : (a : ℕ) → write_le64 buf v m a < 256
    unfolding write_le64 write_byte
    write_le64-lt a = ground (arith, bytes a)

    pub read_le64-write_le64 : v < 2 ^ 64 → read_le64 (write_le64 buf v m) buf ≡ v
    read_le64-write_le64 h =
        let after = write_le64 buf v m in
        omega (
          arith,
          read_le64-value after write_le64-lt buf,
          read_le32-value after write_le64-lt buf,
          high_value after write_le64-lt buf,
          write_le64-bytes,
        )

-- A number that lies apart from the bytes of a later store.
pub read_le32-same :
    (m m' : ℕ → ℕ) (q n p : ℕ)
    → SameBut q n m m'
    → (p + 4 ≤ q) ⊎ (q + n ≤ p)
    → read_le32 m' p ≡ read_le32 m p
unfolding read_le32
read_le32-same m m' q n p same off =
    rw
      (
        same p (ground arith),
        same (p + 1) (ground arith),
        same (p + 2) (ground arith),
        same (p + 3) (ground arith),
      )
      refl

pub read_le16-same :
    (m m' : ℕ → ℕ) (q n p : ℕ)
    → SameBut q n m m'
    → (p + 2 ≤ q) ⊎ (q + n ≤ p)
    → read_le16 m' p ≡ read_le16 m p
unfolding read_le16
read_le16-same m m' q n p same off = rw (same p (ground arith), same (p + 1) (ground arith)) refl

-- The lower half of a stored number.
pub read_le16-write_le32 :
    (m : ℕ → ℕ) (p v : ℕ) → ((a : ℕ) → m a < 256) → read_le16 (write_le32 p v m) p ≡ v % 2 ^ 16
read_le16-write_le32 m p v bytes = omega (
  arith,
  read_le16-value (write_le32 p v m) (write_le32-lt m p v bytes) p,
  write_le32-bytes m p v,
)

-- A number that is stored and read back is the same, for the three widths, and a store changes no
-- other byte.
pub endian_lem :
    (m : ℕ → ℕ) (buf v : ℕ)
    → ((a : ℕ) → m a < 256)
    → v < 2 ^ 64
    → (read_le16 (write_le16 buf (v % 2 ^ 16) m) buf ≡ v % 2 ^ 16)
      × (read_le32 (write_le32 buf (v % 2 ^ 32) m) buf ≡ v % 2 ^ 32)
      × (read_le64 (write_le64 buf v m) buf ≡ v)
      × SameBut buf 2 m (write_le16 buf (v % 2 ^ 16) m)
      × SameBut buf 4 m (write_le32 buf (v % 2 ^ 32) m)
      × SameBut buf 8 m (write_le64 buf v m)
endian_lem m buf v bytes h = (
  read_le16-write_le16 m buf (v % 2 ^ 16) bytes (omega arith),
  read_le32-write_le32 m buf (v % 2 ^ 32) bytes (omega arith),
  read_le64-write_le64 m buf v bytes h,
  (write_le16-bytes m buf (v % 2 ^ 16)).2,
  (write_le32-bytes m buf (v % 2 ^ 32)).4,
  (write_le64-bytes m buf v).8,
)
