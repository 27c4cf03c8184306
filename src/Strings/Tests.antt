-- ===== src/Strings/Tests.antt =====
-- Runs of kernel/klib/string.c.
use it_works_os.Base.{ℕ, ◌≡◌, refl, some, List, [], ◌∷◌}
use it_works_os.Strings.{strlen, strncpy, strchr, strrchr, strchr_from, strrchr_from}

abbrev kernel : List ℕ
kernel = 107 ∷ 101 ∷ 114 ∷ 110 ∷ 101 ∷ 108 ∷ []

abbrev key : List ℕ
key = 107 ∷ 101 ∷ 121 ∷ []

first_e : strchr kernel 101 ≡ some 1
unfolding strchr strchr_from
first_e = refl

last_e : strrchr kernel 101 ≡ some 4
unfolding strrchr strrchr_from
last_e = refl

terminator : strchr kernel 256 ≡ some (strlen kernel)
unfolding strchr strchr_from strlen
terminator = refl

padded : strncpy key 5 ≡ 107 ∷ 101 ∷ 121 ∷ 0 ∷ 0 ∷ []
unfolding strncpy
padded = refl
