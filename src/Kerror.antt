-- ===== src/Kerror.antt =====
-- kernel/include/kernel/error.h: the codes that kernel functions return. A constructor stands for
-- the negated code, `ok` for KERR_OK.
use it_works_os.Base.{Bool, true, false, ◌≡◌, ◌≢◌, refl}

pub data Kerror : Type 0 where
  ok inval range nomem noent exists busy nospc nosup nodev : Kerror

-- `KERR_IS_ERR(ret)`, and the test `ret < 0` of `KERR_TRY`
abbrev pub is_err : Kerror → Bool
is_err ok = false
is_err _ = true

pub not_err : (e : Kerror) → is_err e ≡ false → e ≡ ok
not_err ok h = refl
not_err _ h = cc

pub err-ne : (e : Kerror) → is_err e ≡ true → e ≢ ok
err-ne e h eq = cc
