-- ===== src/Syslog.antt =====
-- kernel/log/syslog.c: the kernel's log in a ring of bytes. A string is the list of its bytes before
-- the final NUL.
pub mod Write
mod Tests
use it_works_os.Base.{
  ℕ, zero, suc, ◌+◌, ◌-◌, Bool, true, not, ◌||◌, Option, none, some, List, [], ◌∷◌, if◌then◌else◌,
  ◌==◌, leb, set,
}
use it_works_os.Ringbuf
use it_works_os.Ringbuf.{Ringbuf, overwrite, peek, len}

-- The static variables
pub record Syslog : Type 0 where
  pub syslog_rb : Ringbuf
  pub syslog_ready : Bool

-- `SYSLOG_BUFFER_SIZE`
abbrev pub syslog_buffer_size : ℕ
syslog_buffer_size = 4096

-- `syslog_init`, over the static array
pub syslog_init : List ℕ → Syslog → Syslog
syslog_init storage s = record {
  syslog_rb = Ringbuf.init storage syslog_buffer_size;
  syslog_ready = true;
}

pub syslog_putc : ℕ → Syslog → Syslog
syslog_putc c s = if not s.syslog_ready then s else record s { syslog_rb = overwrite s.syslog_rb c }

pub syslog_write : List ℕ → Syslog → Syslog
syslog_write [] s = s
syslog_write (c ∷ str) s = syslog_write str (syslog_putc c s)

pub syslog_len : Syslog → ℕ
syslog_len s = if not s.syslog_ready then 0 else len s.syslog_rb

-- `dst[i] = c`, where `ringbuf_peek` gives one.
abbrev pub store : List ℕ → ℕ → Option ℕ → List ℕ
store dst i none = dst
store dst i (some c) = set dst i c

-- The loop of `syslog_read`, with `left` rounds to go.
pub copy_log : Ringbuf → ℕ → ℕ → List ℕ → List ℕ
copy_log rb zero i dst = dst
copy_log rb (suc left) i dst = copy_log rb left (i + 1) (store dst i (peek rb i true).1)

-- `syslog_read`, into an array that is not null: the length, and the array.
pub syslog_read : List ℕ → ℕ → Syslog → ℕ × List ℕ
syslog_read dst size s =
    let n = if leb size (len s.syslog_rb) then size - 1 else len s.syslog_rb in
    if not s.syslog_ready || (size == 0)
    then (0, dst)
    else (n, set (copy_log s.syslog_rb n 0 dst) n 0)
