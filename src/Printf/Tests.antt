-- ===== src/Printf/Tests.antt =====
-- Runs of kernel/klib/printf.c, and instances of the theorems.
use it_works_os.Base.{ℕ, ◌≡◌, refl, arith, false, none, some, List, [], ◌∷◌}
use it_works_os.Printf.Format.{render, Printed, conversion, vsnprintf_lem}
use it_works_os.Printf.Numeral.{Numeral, digits-Numeral}
use it_works_os.Printf.{word, digits_from, digit_of, reverse, reverse_from, vsnprintf}

abbrev no_bytes : ℕ → ℕ
no_bytes a = 0

-- "i=%d" with -42, "%X%%" with 255 and "%s" with NULL
abbrev signed_format : List ℕ
signed_format = b'i' ∷ (b'=' ∷ (b'%' ∷ (b'd' ∷ [])))

minus_42 :
    render signed_format (word 4294967254 ∷ [])
    ≡ some (b'i' ∷ (b'=' ∷ (b'-' ∷ (b'4' ∷ (b'2' ∷ [])))))
unfolding render conversion digits_from digit_of reverse reverse_from
minus_42 = refl

upper :
    render (b'%' ∷ (b'X' ∷ (b'%' ∷ (b'%' ∷ [])))) (word 255 ∷ [])
    ≡ some (b'F' ∷ (b'F' ∷ (b'%' ∷ [])))
unfolding render conversion digits_from digit_of reverse reverse_from
upper = refl

no_argument : render (b'%' ∷ (b's' ∷ [])) [] ≡ none
unfolding render conversion
no_argument = refl

-- Four bytes have room for "i=-" and the NUL.
vsnprintf_lem_example :
    Printed 4096 4
      (render signed_format (word 4294967254 ∷ []))
      no_bytes
      (vsnprintf 4096 4 signed_format (word 4294967254 ∷ []) no_bytes)
vsnprintf_lem_example = vsnprintf_lem 4096 4 signed_format (word 4294967254 ∷ []) no_bytes

digits-Numeral_example :
    (t : List ℕ) × (digits_from 32 16 false 48879 ≡ some t) × Numeral 16 false 48879 (reverse t)
digits-Numeral_example =
    digits-Numeral 16 false 48879 (omega arith) (omega arith) (omega arith) (omega arith)
