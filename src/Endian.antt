-- ===== src/Endian.antt =====
-- Model of kernel/include/klib/endian.h: numbers in little-endian bytes. Memory is a function from
-- addresses to bytes, and a buffer lies in the address space.
pub mod Laws
use it_works_os.Base.{ℕ, ◌+◌, ◌*◌, ◌/◌, ◌%◌, ◌^◌, bit_or}
use it_works_os.Memory.{write_byte}

-- `(uint64_t)buf[i] << n`
abbrev pub byte_at : (ℕ → ℕ) → ℕ → ℕ → ℕ
byte_at m a n = m a * 2 ^ n

pub read_le16 : (ℕ → ℕ) → ℕ → ℕ
read_le16 m buf = bit_or (m buf) (byte_at m (buf + 1) 8)

pub read_le32 : (ℕ → ℕ) → ℕ → ℕ
read_le32 m buf =
    bit_or (bit_or (bit_or (m buf) (byte_at m (buf + 1) 8)) (byte_at m (buf + 2) 16))
      (byte_at m (buf + 3) 24)

pub read_le64 : (ℕ → ℕ) → ℕ → ℕ
read_le64 m buf =
    let half =
      bit_or (bit_or (bit_or (m buf) (byte_at m (buf + 1) 8)) (byte_at m (buf + 2) 16))
        (byte_at m (buf + 3) 24) in
    bit_or
      (bit_or (bit_or (bit_or half (byte_at m (buf + 4) 32)) (byte_at m (buf + 5) 40))
        (byte_at m (buf + 6) 48))
      (byte_at m (buf + 7) 56)

-- `buf[i] = (uint8_t)(value >> n)`
abbrev pub put : ℕ → ℕ → ℕ → (ℕ → ℕ) → ℕ → ℕ
put a value n m = write_byte m a (value / 2 ^ n % 256)

pub write_le16 : ℕ → ℕ → (ℕ → ℕ) → ℕ → ℕ
unfolding write_byte
write_le16 buf value m = put (buf + 1) value 8 (put buf value 0 m)

pub write_le32 : ℕ → ℕ → (ℕ → ℕ) → ℕ → ℕ
unfolding write_byte
write_le32 buf value m =
    put (buf + 3) value 24 (put (buf + 2) value 16 (put (buf + 1) value 8 (put buf value 0 m)))

pub write_le64 : ℕ → ℕ → (ℕ → ℕ) → ℕ → ℕ
unfolding write_byte
write_le64 buf value m =
    let low =
      put (buf + 3) value 24 (put (buf + 2) value 16 (put (buf + 1) value 8 (put buf value 0 m))) in
    put (buf + 7) value 56
      (put (buf + 6) value 48 (put (buf + 5) value 40 (put (buf + 4) value 32 low)))
