-- ===== src/Pid.antt =====
-- kernel/process/pid.c: process numbers from a bitmap of 64. The static bitmap is the state.
pub mod Laws
pub mod Tests
use it_works_os.Base.{
  ℕ, ◌+◌, ◌⊎◌, inl, inr, Bool, not, Option, none, some, List, [], ◌∷◌, if◌then◌else◌, ltb, leb,
}
use it_works_os.Base.Int.{ℤ, pos, negsuc}
use it_works_os.Kerror.{Kerror, ok, inval, noent, nospc}
use it_works_os.Bitmap
use it_works_os.Bitmap.{Bitmap, static_init, find_zero, set, clear, test}

-- `PID_MAX` and `PID_FIRST`
abbrev pub pid_max : ℕ
pid_max = 64

abbrev pub pid_first : ℕ
pid_first = 1

-- `pid_bm`, over zeroed words
pub pid_bm : Bitmap
pid_bm = static_init (0 ∷ 0 ∷ []) pid_max

-- `pid_alloc`: a number, or a negated code.
abbrev pub alloc_at : Bitmap → Option ℕ → (Kerror ⊎ ℕ) × Bitmap
alloc_at bm none = (inl nospc, bm)
alloc_at bm (some p) = (inr p, set bm p)

pub pid_alloc : Bitmap → (Kerror ⊎ ℕ) × Bitmap
pid_alloc bm = alloc_at bm (find_zero bm)

-- `pid_free`, for a `pid_t`, which is signed
pub pid_free : ℤ → Bitmap → Kerror × Bitmap
pid_free (negsuc n) bm = (inval, bm)
pid_free (pos pid) bm =
    if ltb pid pid_first
    then (inval, bm)
    else if leb pid_max pid
    then (inval, bm)
    else if not (test bm pid)
    then (noent, bm)
    else (ok, clear bm pid)

pub pid_init : Bitmap → Kerror × Bitmap
pid_init bm = (ok, set bm 0)
