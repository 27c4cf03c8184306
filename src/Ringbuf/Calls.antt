-- ===== src/Ringbuf/Calls.antt =====
-- What a client asks of a ring, and what it sees of each call.
use it_works_os.Base.{ℕ, Bool, Option}

pub data Call : Type 0 where
  write_over write : ℕ → Call
  take_out : Bool → Call
  look : ℕ → Bool → Call

abbrev pub Reply : Type 0
Reply = Bool × Option ℕ
