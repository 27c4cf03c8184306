-- ===== src/Pid/Tests.antt =====
-- The process numbers from start-up, and after the number 1 was given out.
use it_works_os.Base.{ℕ, zero, suc, ◌^◌, ◌<◌, ◌≡◌, refl, inr, [], ◌∷◌, arith}
use it_works_os.Bits.{mask_test, mask_set}
use it_works_os.Bitmap.{Bitmap, word, set, find_zero, static_init}
use it_works_os.Pid.{pid_bm, pid_alloc, pid_init}
use it_works_os.Pid.Laws.{IsReady, pid_init-IsReady}
use it_works_os.Bitmap.Laws.{IsValid}
use it_works_os.Bitmap.Find.{IsFirstClear, find_zero-IsFirstClear}

pid_bm-IsValid : IsValid pid_bm
unfolding pid_bm static_init
pid_bm-IsValid = record { storage = omega arith; small = omega arith; words_fit = fit }
  where
    fit : (i : ℕ) → word pid_bm i < 2 ^ 32
    fit zero = omega arith
    fit (suc zero) = omega arith
    fit (suc (suc i)) = omega arith

find_zero-IsFirstClear_example : IsFirstClear pid_bm 0 (find_zero pid_bm)
find_zero-IsFirstClear_example = find_zero-IsFirstClear pid_bm-IsValid

pub pid_bm-IsReady : IsReady (pid_init pid_bm).1
unfolding pid_bm static_init
pid_bm-IsReady = pid_init-IsReady pid_bm-IsValid refl

abbrev one_taken : Bitmap
one_taken = record { words = 3 ∷ 0 ∷ []; nbits = 64; nelems = 2 }

first_pid : pid_alloc (pid_init pid_bm).1 ≡ (inr 1, one_taken)
unfolding pid_alloc pid_init pid_bm static_init set mask_set find_zero mask_test
first_pid = refl
