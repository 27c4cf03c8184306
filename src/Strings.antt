-- ===== src/Strings.antt =====
-- kernel/klib/string.c: a string is the list of its bytes before the final NUL, none of which is 0;
-- a pointer into it is the index.
pub mod Compare
mod Tests
use it_works_os.Base.{
  ℕ, zero, suc, ◌+◌, ◌-◌, ◌%◌, ◌^◌, Bool, Option, none, some, List, [], ◌∷◌, ◌++◌, if◌then◌else◌,
  ◌==◌, leb,
}
use it_works_os.Base.Int.{ℤ, pos, negsuc}

pub strlen : List ℕ → ℕ
strlen [] = 0
strlen (c ∷ str) = strlen str + 1

-- `(unsigned char)*str1 - (unsigned char)*str2`
unfoldable pub difference : ℕ → ℕ → ℤ
difference x y = if leb y x then pos (x - y) else negsuc (y - x - 1)

unfoldable pub strcmp : List ℕ → List ℕ → ℤ
strcmp [] [] = pos 0
strcmp [] (y ∷ ys) = difference 0 y
strcmp (x ∷ xs) [] = difference x 0
strcmp (x ∷ xs) (y ∷ ys) = let rest = strcmp xs ys in if x == y then rest else difference x y

pub strncmp : List ℕ → List ℕ → ℕ → ℤ
strncmp xs ys zero = pos 0
strncmp [] [] (suc n) = pos 0
strncmp [] (y ∷ ys) (suc n) = difference 0 y
strncmp (x ∷ xs) [] (suc n) = difference x 0
strncmp (x ∷ xs) (y ∷ ys) (suc n) =
    let rest = strncmp xs ys n in if x == y then rest else difference x y

-- The bytes that `strcpy` writes, by way of `memcpy`.
pub strcpy : List ℕ → List ℕ
strcpy src = src ++ (0 ∷ [])

-- The `n` bytes that `strncpy` writes.
pub strncpy : List ℕ → ℕ → List ℕ
strncpy src zero = []
strncpy [] (suc n) = 0 ∷ strncpy [] n
strncpy (c ∷ src) (suc n) = c ∷ strncpy src n

-- `strchr`, where the pointer is `i` bytes into the string
pub strchr_from : List ℕ → ℕ → ℕ → Option ℕ
strchr_from [] c i = if c == 0 then some i else none
strchr_from (x ∷ str) c i = let rest = strchr_from str c (i + 1) in if x == c then some i else rest

pub strchr : List ℕ → ℕ → Option ℕ
strchr str c = strchr_from str (c % 2 ^ 8) 0

pub strrchr_from : List ℕ → ℕ → ℕ → Option ℕ → Option ℕ
strrchr_from [] c i last = if c == 0 then some i else last
strrchr_from (x ∷ str) c i last = strrchr_from str c (i + 1) (if x == c then some i else last)

pub strrchr : List ℕ → ℕ → Option ℕ
strrchr str c = strrchr_from str (c % 2 ^ 8) 0 none
