-- ===== src/Console.antt =====
-- kernel/console/console.c: the one active console. A console is a record of functions on a state `S`,
-- which stands for what its driver keeps.
use it_works_os.Base.{ℕ, Bool, Option, none, some, List}
use it_works_os.Kerror.{Kerror, ok, inval, busy, nodev}

-- The functions of `struct console`
pub record Ops (S : Type 0) : Type 0 where
  pub write : Option (List ℕ) → S → Kerror × S
  pub clear : S → Kerror × S
  pub set_cursor_position : ℕ → ℕ → S → Kerror × S
  pub set_cursor_visible : Bool → S → Kerror × S

module _ {S : Type 0} where
  -- `active_con` after `console_register`; `none` is NULL.
  pub console_register : Option (Ops S) → Option (Ops S) → Kerror × Option (Ops S)
  console_register none active = (inval, active)
  console_register (some con) none = (ok, some con)
  console_register (some con) (some active) = (busy, some active)

  pub console_write : Option (Ops S) → Option (List ℕ) → S → Kerror × S
  console_write none buf s = (nodev, s)
  console_write (some con) buf s = con.write buf s

  pub console_clear : Option (Ops S) → S → Kerror × S
  console_clear none s = (nodev, s)
  console_clear (some con) s = con.clear s

  pub console_set_cursor_position : Option (Ops S) → ℕ → ℕ → S → Kerror × S
  console_set_cursor_position none x y s = (nodev, s)
  console_set_cursor_position (some con) x y s = con.set_cursor_position x y s

  pub console_set_cursor_visible : Option (Ops S) → Bool → S → Kerror × S
  console_set_cursor_visible none visible s = (nodev, s)
  console_set_cursor_visible (some con) visible s = con.set_cursor_visible visible s
